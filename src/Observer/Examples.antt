-- ===== src/Observer/Examples.antt =====
-- The theorems on client/observeDevices.go at concrete devices.
use device.Common.{
  Bool, Option, String, ◌≡◌, refl, true, false, none, some, List, [], ◌∷◌, arith, ◌≤◌,
}
use device.Common.Keys.{has}
use device.Common.Eq.{string_eq}
use device.Common.Dict.{lookup}
use device.Observer.{
  Counts, Action, observes, ends, new_devices_observer, cancel, run, Event, poll_observe, poll_end,
  max_failures, process_devices,
}
use device.Observer.Online.{process_devices_lem}
use device.Observer.History.{polls, removed_at_threshold}
use device.Observer.Handling.{endings}
use device.Observer.Endings.{run-endings}

-- One device answered the last poll, another missed two.
abbrev online : Counts
online = ("a", 0) ∷ ("b", 2) ∷ []

process_devices_lem_example :
    (lookup "b" (process_devices 3 online ("c" ∷ [])).current ≡ none)
    × (has "b" (process_devices 3 online ("c" ∷ [])).added ≡ false)
    × (has "b" (process_devices 3 online ("c" ∷ [])).removed ≡ true)
unfolding lookup max_failures
process_devices_lem_example = process_devices_lem 3 online ("c" ∷ []) "b" (refl, (refl, tt))

removed_at_threshold_example :
    has "a" (process_devices 3 (polls 3 online (("b" ∷ []) ∷ [] ∷ [])) []).removed ≡ true
unfolding lookup max_failures
removed_at_threshold_example =
    removed_at_threshold 3 online (("b" ∷ []) ∷ [] ∷ []) [] "a" (omega arith) (refl, (refl, tt))
      refl (refl, (refl, tt)) refl (omega arith)

-- A device comes, then the observer is cancelled in its second poll.
abbrev before : List Action
before = observes (λ e. true) (some ("c" ∷ [])) ∷ ends ∷ observes (λ e. true) (some ("c" ∷ [])) ∷ []

run-endings_example :
    (endings (run (new_devices_observer 3) before).observer.handler.calls ≤ 1)
    × ((run (new_devices_observer 3) before).observer.handler.unsubscribed
        ≡ endings (run (new_devices_observer 3) before).observer.handler.calls)
    × ((run (cancel (run (new_devices_observer 3) before)) (ends ∷ [])).observer.handler.calls
        ≡ (run (new_devices_observer 3) before).observer.handler.calls)
    × ((accepts : Event → Bool) (found : Option (List String))
        → (poll_end
            (poll_observe accepts found (cancel (run (new_devices_observer 3) before)))).running
          ≡ false)
run-endings_example = run-endings 3 before (ends ∷ [])
