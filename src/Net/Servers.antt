-- ===== src/Net/Servers.antt =====
-- bridge/net/network.go: the servers that New makes over sockets, Serve and Close.
pub mod Balance
pub mod Closed
use device.Common.{
  ℕ, zero, suc, ◌+◌, String, ◌==◌, Bool, true, false, not, ◌&&◌, ◌||◌, Option, none, some, List, [],
  ◌∷◌, ◌++◌, eqb, if◌then◌else◌,
}
use device.Net.Config.{ExternalAddress, Resolver, Config, validate}

-- newConn of a network and a port, which may fail, with the port of its local address where
-- getPortFromAddress can tell it; and newMCastConn, which closes its own socket when it fails.
pub record System : Type 0 where
  pub new_conn : String → String → Option (Option String)
  pub new_mcast_conn : String → Bool

-- How many sockets were opened, and how many closed.
pub record Sockets : Type 0 where
  pub opened : ℕ
  pub closed : ℕ

-- What newServers has made so far: the number of servers, whether there are some for IPv4 and IPv6,
-- and the addresses with their ports.
pub record Servers : Type 0 where
  pub count : ℕ
  pub has_v4 : Bool
  pub has_v6 : Bool
  pub addresses : List ExternalAddress

pub data Made : Type 0 where
  made : Servers → Made
  make_failed : Made

abbrev pub open_one : Sockets → Sockets
open_one w = record w { opened = suc w.opened }

-- coAPServers.Close
unfoldable pub close_servers : ℕ → Sockets → Sockets
close_servers n w = record w { closed = w.closed + n }

abbrev pub with_server : ExternalAddress → String → Servers → Servers
with_server e port s = record {
  count = suc s.count;
  has_v4 = s.has_v4 || (e.network == "udp4");
  has_v6 = s.has_v6 || (e.network == "udp6");
  addresses = s.addresses ++ record e { port = port } ∷ [];
}

-- The port that an address has once its socket is there, where it can be told.
abbrev pub bound_port : ExternalAddress → Option String → Option String
bound_port e port = if e.port == "0" then port else some e.port

abbrev pub served :
    ExternalAddress
    → Servers
    → Sockets
    → Option String
    → (Servers → Sockets → Made × Sockets)
    → Made × Sockets
served e s w none next = (make_failed, close_servers s.count (open_one w))
served e s w (some p) next = next (with_server e p s) (open_one w)

abbrev pub bound :
    ExternalAddress
    → Servers
    → Sockets
    → Option (Option String)
    → (Servers → Sockets → Made × Sockets)
    → Made × Sockets
bound e s w none next = (make_failed, close_servers s.count w)
bound e s w (some port) next = served e s w (bound_port e port) next

abbrev pub no_servers : Servers
no_servers = record { count = 0; has_v4 = false; has_v6 = false; addresses = [] }

-- newServers, of addresses in the networks udp4 and udp6.
unfoldable pub make_servers : System → List ExternalAddress → Servers → Sockets → Made × Sockets
make_servers sys [] s w = (if eqb s.count 0 then make_failed else made s, w)
make_servers sys (e ∷ es) s w =
    bound e s w (sys.new_conn e.network e.port) (λ s' w'. make_servers sys es s' w')

unfoldable pub new_servers : System → List ExternalAddress → Sockets → Made × Sockets
unfolding make_servers
new_servers sys es w = make_servers sys es no_servers w

-- appendMCastServers
unfoldable pub append_mcast_servers : System → List String → Servers → Sockets → Made × Sockets
append_mcast_servers sys [] s w = (made s, w)
append_mcast_servers sys (a ∷ addrs) s w =
    let rest = append_mcast_servers sys addrs s w in
    let next = append_mcast_servers sys addrs (record s { count = suc s.count }) (open_one w) in
    if a == ""
    then rest
    else if sys.new_mcast_conn a
    then next
    else (make_failed, close_servers s.count w)

abbrev pub and_then : Made × Sockets → (Servers → Sockets → Made × Sockets) → Made × Sockets
and_then (make_failed, w) next = (make_failed, w)
and_then (made s, w) next = next s w

abbrev pub append_if : Bool → System → List String → Servers → Sockets → Made × Sockets
append_if true sys addrs s w = append_mcast_servers sys addrs s w
append_if false sys addrs s w = (made s, w)

-- New, of the addresses of a valid configuration and the multicast addresses of client/core.
unfoldable pub make_net :
    System → List ExternalAddress → List String → List String → Sockets → Made × Sockets
make_net sys addresses mcast4 mcast6 w = and_then (new_servers sys addresses w) (λ s w'.
    and_then (append_if s.has_v4 sys mcast4 s w') (λ s' w''. append_if s.has_v6 sys mcast6 s' w''))

abbrev pub made_of : System → List String → List String → Sockets → Option Config → Made × Sockets
made_of sys mcast4 mcast6 w none = (make_failed, w)
made_of sys mcast4 mcast6 w (some cfg) = make_net sys cfg.external_addresses_port mcast4 mcast6 w

-- New
unfoldable pub new_net :
    Resolver → System → Config → List String → List String → Sockets → Made × Sockets
new_net ops sys cfg mcast4 mcast6 w = made_of sys mcast4 mcast6 w (validate ops cfg)

-- Net, once made: its flags, how often the channel `done` was closed, the servers stopped and their
-- sockets closed.
pub record Net : Type 0 where
  pub serving : Bool
  pub stopped : Bool
  pub done_closed : ℕ
  pub servers_stopped : ℕ
  pub sockets_closed : ℕ

abbrev pub fresh_net : Net
fresh_net = record {
  serving = false;
  stopped = false;
  done_closed = 0;
  servers_stopped = 0;
  sockets_closed = 0;
}

-- Serve, up to the servers: whether it serves.
unfoldable pub serve : Net → Bool × Net
serve n = if n.stopped || n.serving then (false, n) else (true, record n { serving = true })

-- Close
unfoldable pub close : Net → Net
close n =
    if n.stopped
    then n
    else if not n.serving
    then record n {
      stopped = true;
      done_closed = suc n.done_closed;
      sockets_closed = suc n.sockets_closed;
    }
    else record n {
      stopped = true;
      done_closed = suc n.done_closed;
      servers_stopped = suc n.servers_stopped;
    }

pub data Call : Type 0 where
  serves closes : Call

unfoldable pub run_calls : Net → List Call → Net
run_calls n [] = n
run_calls n (serves ∷ cs) = run_calls (serve n).1 cs
run_calls n (closes ∷ cs) = run_calls (close n) cs
