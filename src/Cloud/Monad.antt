-- ===== src/Cloud/Monad.antt =====
-- The state of the manager with Go's error results: a method that returns an error keeps what it
-- had changed before. The errors name the wrapping constant and the cause.
use device.Common.{ℕ, Bool, true, false, Option, none, some}
use device.Cloud.State.{Manager}

pub data Code : Type 0 where
  changed deleted unauthorized : Code
  other_code : ℕ → Code

pub data Stage : Type 0 where
  refreshing signing_up signing_in publishing unpublishing signing_off : Stage

pub data Cause : Type 0 where
  no_connection not_built no_reply bad_body context_done : Cause
  missing_access_token missing_authorization_code missing_authorization_provider : Cause
  unexpected_code : Code → Cause

-- `out_of_fuel` is no error of the program: no run of the loops ends with it.
pub data Error : Type 0 where
  at : Stage → Cause → Error
  bad_ca_pool bad_address cannot_dial : Error
  out_of_fuel : Error

pub data Result {ℓ} (A : Type ℓ) : Type ℓ where
  ok : A → Result A
  err : Error → Result A

abbrev pub M : Type 0 → Type 0
M A = Manager → Result A × Manager

abbrev pub bind : {A B : Type 0} → Result A × Manager → (A → M B) → Result B × Manager
bind (ok a, m) f = f a m
bind (err e, m) f = (err e, m)

infixl 5 ◌>>=◌ ◌>>◌
unfoldable pub ◌>>=◌ : {A B : Type 0} → M A → (A → M B) → M B
◌>>=◌ c f m = bind (c m) f

unfoldable pub ◌>>◌ : {B : Type 0} → M (Unit {0}) → M B → M B
c >> k = c >>= λ _. k

unfoldable pub done : M (Unit {0})
done m = (ok tt, m)

unfoldable pub fail : {A : Type 0} → Error → M A
fail e m = (err e, m)

unfoldable pub get : M Manager
get m = (ok m, m)

unfoldable pub modify : (Manager → Manager) → M (Unit {0})
modify f m = (ok tt, f m)

unfoldable pub require : Bool → Error → M (Unit {0})
require true e m = (ok tt, m)
require false e m = (err e, m)

unfoldable pub from_option : {A : Type 0} → Option A → Error → M A
from_option none e m = (err e, m)
from_option (some a) e m = (ok a, m)

-- One name that opens all of these.
unfoldable pub monad : Unit {0}
unfolding ◌>>=◌ ◌>>◌ done fail get modify require from_option
monad = tt

-- The state after a method whose error is only logged.
abbrev pub exec : {A : Type 0} → M A → Manager → Manager
exec c m = (c m).1

abbrev pub succeeded : {A : Type 0} → Result A → Bool
succeeded (ok a) = true
succeeded (err e) = false
