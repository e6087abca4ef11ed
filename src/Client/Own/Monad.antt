-- ===== src/Client/Own/Monad.antt =====
-- Steps that send requests to a device. The device is any function from the requests so far, with the
-- new one at their end, to its answer.
use device.Common.{ℕ, ◌+◌, String, Bool, true, false, Option, none, some, List, [], ◌∷◌, ◌++◌}
use device.Client.Own.Requests.{Conn, Request, Reply, Error}

abbrev pub Sent : Type 0
Sent = Conn × Request

abbrev pub Peer : Type 0
Peer = List Sent → Reply

-- `opened` and `closed` count the connections that were dialled and closed.
pub record State : Type 0 where
  pub sent : List Sent
  pub device_id : String
  pub opened : ℕ
  pub closed : ℕ

pub data Result {ℓ} (A : Type ℓ) : Type ℓ where
  ok : A → Result A
  err : Error → Result A

abbrev pub M : Type 0 → Type 0
M A = State → Result A × State

abbrev pub bind : {A B : Type 0} → Result A × State → (A → M B) → Result B × State
bind (ok a, s) f = f a s
bind (err e, s) f = (err e, s)

infixl 5 ◌>>=◌ ◌>>◌
unfoldable pub ◌>>=◌ : {A B : Type 0} → M A → (A → M B) → M B
◌>>=◌ c f s = bind (c s) f

unfoldable pub ◌>>◌ : {A B : Type 0} → M A → M B → M B
c >> k = c >>= λ _. k

unfoldable pub pure : {A : Type 0} → A → M A
pure a s = (ok a, s)

unfoldable pub throw : {A : Type 0} → Error → M A
throw e s = (err e, s)

unfoldable pub require : Bool → Error → M (Unit {0})
require true e s = (ok tt, s)
require false e s = (err e, s)

unfoldable pub from_option : {A : Type 0} → Option A → Error → M A
from_option none e s = (err e, s)
from_option (some a) e s = (ok a, s)

unfoldable pub read_device_id : M String
read_device_id s = (ok s.device_id, s)

unfoldable pub set_device_id : String → M (Unit {0})
set_device_id id s = (ok tt, record s { device_id = id })

-- A connection that is dialled.
unfoldable pub dial : Bool → Error → M (Unit {0})
dial true e s = (ok tt, record s { opened = s.opened + 1 })
dial false e s = (err e, s)

-- A deferred Close of a connection.
abbrev pub close_after : {A : Type 0} → Result A × State → Result A × State
close_after (r, s) = (r, record s { closed = s.closed + 1 })

unfoldable pub closing : {A : Type 0} → M A → M A
closing c s = close_after (c s)

unfoldable pub send : Peer → Conn → Request → M Reply
send peer c q s = let h = s.sent ++ (c, q) ∷ [] in (ok (peer h), record s { sent = h })

-- UpdateResource and DeleteResource.
unfoldable pub update : Peer → Conn → Request → Error → M (Unit {0})
update peer c q e = send peer c q >>= λ r. require r.accepted e
