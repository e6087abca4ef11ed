-- ===== src/Net/Servers/Balance.antt =====
-- What New of bridge/net/network.go does with its sockets.
use device.Common.{
  suc, ◌+◌, ◌<◌, String, ◌==◌, ◌≡◌, ◌≢◌, refl, Bool, true, false, Option, none, some, List, [], ◌∷◌,
  eqb, eqb_iff, arith, Option-cases, Bool-cases, inl, inr,
}
use device.Net.Config.{ExternalAddress, Resolver, Config, validate}
use device.Net.Servers.{
  System, Sockets, Servers, Made, made, make_failed, open_one, close_servers, with_server,
  bound_port, bound, served, make_servers, new_servers, no_servers, append_mcast_servers, and_then,
  append_if, make_net, new_net,
}

-- The sockets that are open are those of the servers; after an error none is open.
abbrev pub Balanced : Made × Sockets → Type 0
Balanced (made s, w) = (w.opened ≡ w.closed + s.count) × (0 < s.count)
Balanced (make_failed, w) = w.opened ≡ w.closed

abbrev pub ReadsPorts : System → Type 0
ReadsPorts sys = (network port : String) → sys.new_conn network port ≢ some none

-- What goes on with the servers made so far keeps the balance.
abbrev Goes : (Servers → Sockets → Made × Sockets) → Type 0
Goes next = (s : Servers) (w : Sockets) → w.opened ≡ w.closed + s.count → Balanced (next s w)

served-Balanced :
    (e : ExternalAddress) (s : Servers) (w : Sockets) (o : Option String)
    → (next : Servers → Sockets → Made × Sockets) → Goes next
    → o ≢ none
    → w.opened ≡ w.closed + s.count
    → Balanced (served e s w o next)
served-Balanced e s w none next g r b = absurd (r refl)
served-Balanced e s w (some p) next g r b = g (with_server e p s) (open_one w) (omega (arith, b))

bound_port-some :
    (e : ExternalAddress) (port : Option String) → port ≢ none → bound_port e port ≢ none
bound_port-some e none r h = r refl
bound_port-some e (some p) r h = absurd (ground (arith, h))

bound-Balanced :
    (e : ExternalAddress) (s : Servers) (w : Sockets) (o : Option (Option String))
    → (next : Servers → Sockets → Made × Sockets) → Goes next
    → o ≢ some none
    → w.opened ≡ w.closed + s.count
    → Balanced (bound e s w o next)
unfolding close_servers
bound-Balanced e s w none next g r b = b
bound-Balanced e s w (some none) next g r b = absurd (r refl)
bound-Balanced e s w (some (some p)) next g r b =
    served-Balanced e s w (bound_port e (some p)) next g
      (bound_port-some e (some p) (λ h. absurd (ground (arith, h)))) b

make_servers-Balanced :
    (sys : System) (es : List ExternalAddress) → ReadsPorts sys → Goes (make_servers sys es)
unfolding make_servers
make_servers-Balanced sys [] r s w b = elim (Bool-cases (eqb s.count 0)) [
  | inl t ↦ rw t (omega (arith, b, (eqb_iff s.count 0).0 t))
  | inr f ↦ rw f (b, ground (arith, f))
]
make_servers-Balanced sys (e ∷ es) r s w b =
    bound-Balanced e s w (sys.new_conn e.network e.port) (λ s' w'. make_servers sys es s' w')
      (make_servers-Balanced sys es r) (r e.network e.port) b

append_mcast_servers-Balanced :
    (sys : System) (addrs : List String) (s : Servers) (w : Sockets)
    → Balanced (made s, w)
    → Balanced (append_mcast_servers sys addrs s w)
unfolding append_mcast_servers close_servers
append_mcast_servers-Balanced sys [] s w b = b
append_mcast_servers-Balanced sys (a ∷ addrs) s w b = elim (Bool-cases (a == "")) [
  | inl t ↦ rw t (append_mcast_servers-Balanced sys addrs s w b)
  | inr f ↦ elim (Bool-cases (sys.new_mcast_conn a)) [
    | inl m ↦
        rw (f, m)
          (append_mcast_servers-Balanced sys addrs (record s { count = suc s.count }) (open_one w)
            (omega (arith, b.0), omega arith))
    | inr m ↦ rw (f, m) b.0
  ]
]

append_if-Balanced :
    (has : Bool) (sys : System) (addrs : List String) (s : Servers) (w : Sockets)
    → Balanced (made s, w)
    → Balanced (append_if has sys addrs s w)
append_if-Balanced true sys addrs s w b = append_mcast_servers-Balanced sys addrs s w b
append_if-Balanced false sys addrs s w b = b

and_then-Balanced :
    (m : Made) (w : Sockets) (next : Servers → Sockets → Made × Sockets)
    → Balanced (m, w)
    → ((s : Servers) (w' : Sockets) → Balanced (made s, w') → Balanced (next s w'))
    → Balanced (and_then (m, w) next)
and_then-Balanced make_failed w next b g = b
and_then-Balanced (made s) w next b g = g s w b

make_net-Balanced :
    (sys : System) (addresses : List ExternalAddress) (mcast4 mcast6 : List String) (w : Sockets)
    → ReadsPorts sys
    → w.opened ≡ w.closed
    → Balanced (make_net sys addresses mcast4 mcast6 w)
unfolding make_net new_servers
make_net-Balanced sys addresses mcast4 mcast6 w r b =
    and_then-Balanced (new_servers sys addresses w).0 (new_servers sys addresses w).1
      (λ s w'.
        and_then (append_if s.has_v4 sys mcast4 s w')
          (λ s' w''. append_if s.has_v6 sys mcast6 s' w''))
      (make_servers-Balanced sys addresses r no_servers w (omega (arith, b)))
      (λ s w' b'.
        and_then-Balanced (append_if s.has_v4 sys mcast4 s w').0
          (append_if s.has_v4 sys mcast4 s w').1 (λ s' w''. append_if s.has_v6 sys mcast6 s' w'')
          (append_if-Balanced s.has_v4 sys mcast4 s w' b')
          (λ s' w'' b''. append_if-Balanced s.has_v6 sys mcast6 s' w'' b''))

-- New either makes at least one server, each over a socket of its own, or fails; when it fails, every
-- socket that it opened is closed. The port of a socket's local address can be read.
pub new_net-Balanced :
    (ops : Resolver) (sys : System) (cfg : Config) (mcast4 mcast6 : List String)
    → ReadsPorts sys
    → Balanced (new_net ops sys cfg mcast4 mcast6 (record { opened = 0; closed = 0 }))
unfolding new_net
new_net-Balanced ops sys cfg mcast4 mcast6 r = elim (Option-cases (validate ops cfg)) [
  | inl n ↦ rw n refl
  | inr (cfg', n) ↦ rw n (
      make_net-Balanced sys cfg'.external_addresses_port mcast4 mcast6
        (record { opened = 0; closed = 0 }) r refl)
]
