-- ===== src/Client/Connections.antt =====
-- client/core/device.go: the connections of a device. A `conn` is an object that several hold, so the
-- map has its number and the objects are a store; a connection of go-coap is a number too.
pub mod Pooling
pub mod Closing
pub mod Retry
pub mod Late
mod Examples
use device.Common.{
  ℕ, suc, String, ◌==◌, Bool, true, false, not, ◌&&◌, ◌||◌, Option, none, some, List, [], ◌∷◌, eqb,
  if◌then◌else◌, is_some,
}
use device.Common.Dict.{lookup, store, remove}
use device.Common.Eq.{string_eq}
use device.Schema.Link.{Endpoint}
use device.Schema.Endpoints.{AddrOps}

-- conn: its connection, once dialled, and whether a dial has failed.
pub record Conn : Type 0 where
  pub client : Option ℕ
  pub failed : Bool

-- `alive` are the connections whose context is not done; `handlers` has for each the arguments of the
-- close handler that connectToEndpoint registers.
pub record Device : Type 0 where
  pub conn : List (String × ℕ)
  pub objects : ℕ → Conn
  pub next_object : ℕ
  pub alive : ℕ → Bool
  pub handlers : ℕ → Option (String × ℕ)
  pub next_client : ℕ

abbrev pub put {ℓ} : {A : Type ℓ} → ℕ → A → (ℕ → A) → ℕ → A
put n a f m = if eqb m n then a else f m

abbrev pub new_conn : Conn
new_conn = record { client = none; failed = false }

abbrev pub created : Option ℕ → String → Device → ℕ × Device
created (some n) url d = (n, d)
created none url d = (
  d.next_object,
  record d {
    conn = store url d.next_object d.conn;
    objects = put d.next_object new_conn d.objects;
    next_object = suc d.next_object;
  },
)

-- loadORCreate
unfoldable pub load_or_create : String → Device → ℕ × Device
load_or_create url d = created (lookup url d.conn) url d

-- What conn.Dial returns: a connection, with whether it was there, or an error.
pub data Dialled : Type 0 where
  reused dialled : ℕ → Dialled
  dial_failed : Dialled

-- The connection of an object, where its context is not done.
abbrev pub living : (ℕ → Bool) → Option ℕ → Option ℕ
living alive none = none
living alive (some c) = if alive c then some c else none

abbrev pub dial_new : Bool → ℕ → Device → Dialled × Device
dial_new false n d =
    (dial_failed, record d { objects = put n (record (d.objects n) { failed = true }) d.objects })
dial_new true n d = (
  dialled d.next_client,
  record d {
    objects = put n (record (d.objects n) { client = some d.next_client }) d.objects;
    alive = put d.next_client true d.alive;
    next_client = suc d.next_client;
  },
)

abbrev pub dial_object : Option ℕ → Bool → ℕ → Device → Dialled × Device
dial_object (some c) dials n d = (reused c, d)
dial_object none dials n d = if (d.objects n).failed then (dial_failed, d) else dial_new dials n d

-- conn.Dial, where a dial that is made succeeds or not.
unfoldable pub dial : Bool → ℕ → Device → Dialled × Device
dial dials n d = dial_object (living d.alive (d.objects n).client) dials n d

abbrev pub same_client : Option ℕ → Option ℕ → Bool
same_client (some b) (some c) = eqb b c
same_client _ _ = false

abbrev pub removes : Conn → Conn → Bool → Bool
removes c cc same =
    if not (is_some cc.client) && not c.failed
    then false
    else same_client c.client cc.client || (same && c.failed)

abbrev pub remove_found : Option ℕ → Bool → String → ℕ → Device → Device
remove_found none acquired url n d = d
remove_found (some m) acquired url n d =
    if acquired && removes (d.objects m) (d.objects n) (eqb m n)
    then record d { conn = remove url d.conn }
    else d

-- removeConn, where TryAcquire takes the lock of the object in the map or not.
unfoldable pub remove_conn : Bool → String → ℕ → Device → Device
remove_conn acquired url n d = remove_found (lookup url d.conn) acquired url n d

pub data Connected : Type 0 where
  connected : String → ℕ → Connected
  connect_failed : Connected

abbrev pub register : String → ℕ → Dialled × Device → Connected × Device
register url n (reused c, d) = (connected url c, d)
register url n (dialled c, d) =
    (connected url c, record d { handlers = put c (some (url, n)) d.handlers })
register url n (dial_failed, d) = (connect_failed, remove_conn true url n d)

abbrev pub connect_object : Bool → String → ℕ × Device → Connected × Device
connect_object dials url (n, d) = register url n (dial dials n d)

-- connectToEndpoint, past GetAddr.
unfoldable pub connect_to_url : Bool → String → Device → Connected × Device
connect_to_url dials url d = connect_object dials url (load_or_create url d)

module _ {Addr : Type 0} (ops : AddrOps Addr) where
  abbrev pub connect_to_addr : (Addr → Bool) → Option Addr → Device → Connected × Device
  connect_to_addr dials none d = (connect_failed, d)
  connect_to_addr dials (some addr) d = connect_to_url (dials addr) (ops.url addr) d

  -- connectToEndpoint
  unfoldable pub connect_to_endpoint : (Addr → Bool) → Endpoint → Device → Connected × Device
  connect_to_endpoint dials endpoint d = connect_to_addr dials (ops.parse endpoint.uri) d

  -- connectToEndpoints; `or_else` is what it does with the endpoints that are left.
  abbrev pub or_else : Connected × Device → (Device → Connected × Device) → Connected × Device
  or_else (connected url c, d) next = (connected url c, d)
  or_else (connect_failed, d) next = next d

  unfoldable pub connect_to_endpoints : (Addr → Bool) → List Endpoint → Device → Connected × Device
  connect_to_endpoints dials [] d = (connect_failed, d)
  connect_to_endpoints dials (e ∷ es) d =
      or_else (connect_to_endpoint dials e d) (λ d'. connect_to_endpoints dials es d')

-- conn.Close, after which the context of the connection is done.
abbrev pub close_client : Option ℕ → (ℕ → Bool) → ℕ → Bool
close_client none alive = alive
close_client (some c) alive = put c false alive

unfoldable pub close_all : List (String × ℕ) → Device → Device
close_all [] d = d
close_all ((url, n) ∷ m) d =
    close_all m (record d { alive = close_client (d.objects n).client d.alive })

-- The part of Close that pops the connections and closes each.
unfoldable pub close_connections : Device → Device
close_connections d = close_all d.conn (record d { conn = [] })

-- The loss of a connection: its context is done.
unfoldable pub lose : ℕ → Device → Device
lose c d = record d { alive = put c false d.alive }

abbrev pub handle_close : Bool → Option (String × ℕ) → Device → Device
handle_close acquired none d = d
handle_close acquired (some (url, n)) d = remove_conn acquired url n d

-- The close handler of a connection, when it runs.
unfoldable pub close_handler : Bool → ℕ → Device → Device
close_handler acquired c d = handle_close acquired (d.handlers c) d

-- What happens to the connections: a connect to an address; a connection that is alive is lost, and its
-- close handler runs at once; the connections are closed.
pub data Event : Type 0 where
  connects : Bool → String → Event
  loses : Bool → ℕ → Event
  closes : Event

unfoldable pub step : Device → Event → Device
step d (connects dials url) = (connect_to_url dials url d).1
step d (loses acquired c) = if d.alive c then close_handler acquired c (lose c d) else d
step d closes = close_connections d

unfoldable pub run : Device → List Event → Device
run d [] = d
run d (e ∷ es) = run (step d e) es

abbrev pub new_device : Device
new_device = record {
  conn = [];
  objects = λ n. new_conn;
  next_object = 0;
  alive = λ c. false;
  handlers = λ c. none;
  next_client = 0;
}
