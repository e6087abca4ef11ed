-- ===== src/Observer/Online.antt =====
-- processDevices of client/observeDevices.go, device by device.
use device.Common.{
  ℕ, ◌+◌, ◌%◌, String, ◌≡◌, refl, Bool, not, ◌&&◌, ◌||◌, Option, none, some, List, [], ◌∷◌, ◌++◌,
  is_some, ltb, if◌then◌else◌, arith, eq_iff,
}
use device.Common.Keys.{has, has-append}
use device.Common.Eq.{string_eq}
use device.Common.Dict.{lookup, store, keys, lookup-store, has-keys, Distinct}
use device.Observer.{Counts, seen_counts, max_failures, carry_over, newcomers, process_devices}

seen_counts-lookup :
    (ds : List String) (current : Counts) (k : String)
    → lookup k (seen_counts ds current) ≡ (if has k ds then some 0 else lookup k current)
unfolding seen_counts
seen_counts-lookup [] current k = refl
seen_counts-lookup (d ∷ ds) current k =
    ground (arith, seen_counts-lookup ds (store d 0 current) k, lookup-store d k 0 current)

-- What becomes of the polls missed by a device that did not answer.
abbrev pub missed : ℕ → Option ℕ → Option ℕ
missed threshold none = none
missed threshold (some f) = if ltb f (max_failures threshold) then some ((f + 1) % 256) else none

abbrev counted : ℕ → String → ℕ → Counts → Counts
counted t i f current =
    if not (is_some (lookup i current)) && ltb f (max_failures t)
    then store i ((f + 1) % 256) current
    else current

abbrev dropped : ℕ → String → ℕ → Counts → List String → List String
dropped t i f current removed =
    if is_some (lookup i current)
    then removed
    else if ltb f (max_failures t)
    then removed
    else removed ++ i ∷ []

carry_over-lookup :
    (t : ℕ) (before current : Counts) (removed : List String) (k : String)
    → Distinct before
    → lookup k (carry_over t before current removed).0
      ≡ (if is_some (lookup k current) then lookup k current else missed t (lookup k before))
unfolding carry_over lookup
carry_over-lookup t [] current removed k d = ground arith
carry_over-lookup t ((i, f) ∷ before) current removed k d = ground (
  arith,
  eq_iff i k,
  lookup-store i k ((f + 1) % 256) current,
  has-keys i before,
  carry_over-lookup t before (counted t i f current) (dropped t i f current removed) k d.1,
)

-- A device goes when it was online, did not answer, and has missed too many polls.
abbrev pub goes : ℕ → Option ℕ → Bool
goes t before = is_some before && not (is_some (missed t before))

carry_over-removed :
    (t : ℕ) (before current : Counts) (removed : List String) (k : String)
    → Distinct before
    → has k (carry_over t before current removed).1
      ≡ (has k removed || (not (is_some (lookup k current)) && goes t (lookup k before)))
unfolding carry_over lookup
carry_over-removed t [] current removed k d = ground arith
carry_over-removed t ((i, f) ∷ before) current removed k d = ground (
  arith,
  eq_iff i k,
  lookup-store i k ((f + 1) % 256) current,
  has-keys i before,
  has-append k removed (i ∷ []),
  carry_over-removed t before (counted t i f current) (dropped t i f current removed) k d.1,
)

newcomers-has :
    (before current : Counts) (k : String)
    → has k (newcomers before current) ≡ (has k (keys current) && not (is_some (lookup k before)))
unfolding newcomers keys
newcomers-has before [] k = refl
newcomers-has before ((i, f) ∷ current) k =
    ground (arith, eq_iff i k, newcomers-has before current k)

-- Device by device, for a list of online devices in which none stands twice: one that answers has
-- missed no poll, and is added if it was not online; one that was online and does not answer counts
-- one poll more, up to the threshold, where it is removed; no other is in the result.
pub process_devices_lem :
    (t : ℕ) (before : Counts) (found : List String) (k : String)
    → Distinct before
    → let p = process_devices t before found in
      (lookup k p.current ≡ (if has k found then some 0 else missed t (lookup k before)))
      × (has k p.added ≡ (has k found && not (is_some (lookup k before))))
      × (has k p.removed ≡ (not (has k found) && goes t (lookup k before)))
unfolding process_devices lookup
process_devices_lem t before found k d = ground (
  arith,
  seen_counts-lookup found [] k,
  carry_over-lookup t before (seen_counts found []) [] k d,
  carry_over-removed t before (seen_counts found []) [] k d,
  newcomers-has before (carry_over t before (seen_counts found []) []).0 k,
  has-keys k (carry_over t before (seen_counts found []) []).0,
)
