-- ===== src/Client/Own/Success.antt =====
-- When Own of client/core/ownDevice.go succeeds: with a device that does what it is asked.
use device.Common.{String, ◌==◌, ◌≡◌, true, false}
use device.Schema.Link.{has_flag}
use device.Client.Own.Requests.{Reply, is_rfotm, client_directed}
use device.Client.Own.Monad
use device.Client.Own.Monad.{State, Result, ok, err, M}

abbrev pub Returned : {A : Type 0} → (A → Type 0) → Result A × State → Type 0
Returned Q (ok a, s) = Q a
Returned Q (err e, s) = ⊥

pub record Returns {A : Type 0} (c : M A) (Q : A → Type 0) : Type 0 where
  pub holds : (s : State) → Returned Q (c s)

abbrev Succeeds : {A : Type 0} → M A → Type 0
Succeeds c = Returns c (λ a. Unit {0})

-- A device that accepts every request, waits for its owner, and reads back the owner that was set.
pub record IsWilling (owner : String) (r : Reply) : Type 0 where
  pub accepts : r.accepted ≡ true
  pub settled : r.pending ≡ false
  pub waits : is_rfotm r.state ≡ true
  pub directed : has_flag r.modes client_directed ≡ true
  pub reads_back : (r.owner_id == owner) ≡ true
