-- ===== src/Observer/History.antt =====
-- The polls of client/observeDevices.go one after the other: when a device is reported to have gone,
-- and what the handler hears.
use device.Common.{
  ℕ, suc, ◌+◌, ◌%◌, ◌<◌, String, ◌==◌, ◌≡◌, refl, ap, Bool, true, false, not, ◌&&◌, ◌||◌, some,
  List, [], ◌∷◌, ◌++◌, ltb, if◌then◌else◌, arith, map, ◌∙◌,
}
use device.Common.Keys.{has}
use device.Common.Eq.{string_eq}
use device.Common.Dict.{lookup, store, keys, has-keys, Distinct, store-Distinct}
use device.Observer.{
  Event, went_online, went_offline, Counts, seen_counts, max_failures, carry_over, process_devices,
}
use device.Observer.Online.{missed, goes, process_devices_lem}

seen_counts-Distinct : (ds : List String) (c : Counts) → Distinct c → Distinct (seen_counts ds c)
unfolding seen_counts
seen_counts-Distinct [] c d = d
seen_counts-Distinct (x ∷ ds) c d = seen_counts-Distinct ds (store x 0 c) (store-Distinct x 0 c d)

carry_over-Distinct :
    (t : ℕ) (before current : Counts) (removed : List String)
    → Distinct current
    → Distinct (carry_over t before current removed).0
unfolding carry_over
carry_over-Distinct t [] current removed d = d
carry_over-Distinct t ((i, f) ∷ before) current removed d =
    carry_over-Distinct t before _ _ (ground (arith, store-Distinct i ((f + 1) % 256) current d))

pub process_devices-Distinct :
    (t : ℕ) (before : Counts) (found : List String)
    → Distinct (process_devices t before found).current
unfolding process_devices
process_devices-Distinct t before found =
    carry_over-Distinct t before _ [] (seen_counts-Distinct found [] tt)

-- The counts after some polls in a row, each with the devices that answered.
unfoldable pub polls : ℕ → Counts → List (List String) → Counts
polls t before [] = before
polls t before (found ∷ rest) = polls t (process_devices t before found).current rest

-- Nobody in the polls answered for this device.
abbrev pub Silent : String → List (List String) → Type 0
Silent k [] = Unit
Silent k (found ∷ rest) = (has k found ≡ false) × Silent k rest

abbrev pub count_polls : List (List String) → ℕ
count_polls [] = 0
count_polls (f ∷ rest) = suc (count_polls rest)

polls-Distinct :
    (t : ℕ) (before : Counts) (fs : List (List String))
    → Distinct before
    → Distinct (polls t before fs)
unfolding polls
polls-Distinct t before [] d = d
polls-Distinct t before (f ∷ fs) d =
    polls-Distinct t (process_devices t before f).current fs (process_devices-Distinct t before f)

missed_once : (t n : ℕ) → t < 256 → suc n < t → missed t (some n) ≡ some (suc n)
unfolding max_failures
missed_once t n w l = ground arith

goes_at : (t n : ℕ) → t < 256 → n < t → goes t (some n) ≡ not (ltb (n + 1) t)
unfolding max_failures
goes_at t n w l = ground arith

Silent-polls :
    (t n : ℕ) (before : Counts) (fs : List (List String)) (k : String)
    → t < 256
    → Distinct before
    → Silent k fs
    → lookup k before ≡ some n
    → n + count_polls fs < t
    → lookup k (polls t before fs) ≡ some (n + count_polls fs)
unfolding polls
Silent-polls t n before [] k w d s e l = rw e (ap some (omega arith))
Silent-polls t n before (f ∷ fs) k w d s e l =
    Silent-polls t (suc n) (process_devices t before f).current fs k w
      (process_devices-Distinct t before f) s.1
      (ground (
        arith,
        process_devices_lem t before f k d,
        missed_once t n w (omega arith),
        s.0,
        ap (missed t) e,
      ))
      (omega arith)
    ∙ ap some (omega arith)

-- A device that has just answered is held online through fewer polls in a row than the threshold in
-- which it does not answer, and the poll that makes as many as the threshold reports it gone.
pub removed_at_threshold :
    (t : ℕ) (before : Counts) (fs : List (List String)) (last : List String) (k : String)
    → t < 256
    → Distinct before
    → lookup k before ≡ some 0
    → Silent k fs
    → has k last ≡ false
    → count_polls fs < t
    → has k (process_devices t (polls t before fs) last).removed ≡ not (ltb (count_polls fs + 1) t)
removed_at_threshold t before fs last k w d e s h l =
    let now = polls t before fs in
    ground (
      arith,
      process_devices_lem t now last k (polls-Distinct t before fs d),
      goes_at t (count_polls fs) w l,
      ap (goes t) (Silent-polls t 0 before fs k w d s e (omega arith)),
    )

-- The devices that the events leave online.
unfoldable pub replay : List Event → String → Bool → Bool
replay [] k on = on
replay (went_online d ∷ es) k on = replay es k (if d == k then true else on)
replay (went_offline d ∷ es) k on = replay es k (if d == k then false else on)

joined : (a b c : Bool) → (b || (if a then true else c)) ≡ ((a || b) || c)
joined a b c = ground arith

left : (a b c : Bool) → (not b && (if a then false else c)) ≡ (not (a || b) && c)
left a b c = ground arith

replay-online :
    (ds : List String) (k : String) (on : Bool) (es : List Event)
    → replay (map went_online ds ++ es) k on ≡ replay es k (has k ds || on)
unfolding replay
replay-online [] k on es = refl
replay-online (d ∷ ds) k on es =
    replay-online ds k (if d == k then true else on) es
    ∙ ap (replay es k) (joined (d == k) (has k ds) on)

replay-offline :
    (ds : List String) (k : String) (on : Bool)
    → replay (map went_offline ds) k on ≡ (not (has k ds) && on)
unfolding replay
replay-offline [] k on = refl
replay-offline (d ∷ ds) k on =
    replay-offline ds k (if d == k then false else on) ∙ left (d == k) (has k ds) on

-- The events of a poll, replayed on the devices that were online, give the devices that are online.
replay-process_devices :
    (t : ℕ) (before : Counts) (found : List String) (k : String)
    → Distinct before
    → let p = process_devices t before found in
      replay (map went_online p.added ++ map went_offline p.removed) k (has k (keys before))
      ≡ has k (keys p.current)
replay-process_devices t before found k d =
    let p = process_devices t before found in
    ground (
      arith,
      replay-online p.added k (has k (keys before)) (map went_offline p.removed),
      replay-offline p.removed k (has k p.added || has k (keys before)),
      process_devices_lem t before found k d,
      has-keys k before,
      has-keys k p.current,
    )
