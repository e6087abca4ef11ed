-- ===== src/Observer.antt =====
-- client/observeDevices.go: the observer that polls which devices are online, counts the polls that
-- a device has missed, and reports who came and who went.
pub mod Online
pub mod History
pub mod Handling
pub mod Endings
mod Examples
use device.Common.{
  ℕ, ◌+◌, ◌%◌, String, Bool, true, false, not, ◌&&◌, Option, none, some, List, [], ◌∷◌, ◌++◌,
  is_some, ltb, if◌then◌else◌,
}
use device.Common.Eq.{string_eq}
use device.Common.Dict.{lookup, store, keys}

-- DevicesObservationEvent
pub data Event : Type 0 where
  went_online went_offline : String → Event

-- A map from device IDs to the polls missed, a uint8.
abbrev pub Counts : Type 0
Counts = List (String × ℕ)

-- current[key] = 0 for every device that answered.
unfoldable pub seen_counts : List String → Counts → Counts
seen_counts [] current = current
seen_counts (d ∷ ds) current = seen_counts ds (store d 0 current)

-- o.observerConfiguration.FailureThreshold - 1, which wraps at 0.
unfoldable pub max_failures : ℕ → ℕ
max_failures threshold = (threshold + 255) % 256

-- The loop over the devices that were online: `current` and `removed` as they stand after it.
unfoldable pub carry_over : ℕ → Counts → Counts → List String → Counts × List String
carry_over threshold [] current removed = (current, removed)
carry_over threshold ((d, failures) ∷ rest) current removed =
    carry_over threshold rest
      (if not (is_some (lookup d current)) && ltb failures (max_failures threshold)
        then store d ((failures + 1) % 256) current
        else current)
      (if is_some (lookup d current)
        then removed
        else if ltb failures (max_failures threshold)
        then removed
        else removed ++ d ∷ [])

-- The devices of `current` that were not online.
unfoldable pub newcomers : Counts → Counts → List String
newcomers before [] = []
newcomers before ((d, n) ∷ current) =
    let rest = newcomers before current in if is_some (lookup d before) then rest else d ∷ rest

pub record Poll : Type 0 where
  pub added : List String
  pub removed : List String
  pub current : Counts

-- processDevices
unfoldable pub process_devices : ℕ → Counts → List String → Poll
process_devices threshold before devices =
    let carried = carry_over threshold before (seen_counts devices []) [] in
    record { added = newcomers before carried.0; removed = carried.1; current = carried.0 }

-- What the observer's handler was told.
pub data Call : Type 0 where
  handled : Event → Call
  closed_call error_call : Call

-- devicesObservationHandler; `unsubscribed` counts the calls of removeSubscription.
pub record Handler : Type 0 where
  pub is_closed : Bool
  pub unsubscribed : ℕ
  pub calls : List Call

-- close
unfoldable pub close : Handler → Handler
close h = record h { is_closed = true }

-- Handle: `accepts` says for which events the user's handler returns no error.
unfoldable pub handle : (Event → Bool) → Event → Handler → Bool × Handler
handle accepts e h =
    if h.is_closed then (true, h) else (accepts e, record h { calls = h.calls ++ handled e ∷ [] })

unfoldable pub finish : Call → Handler → Handler
finish c h =
    if h.is_closed
    then h
    else record { is_closed = true; unsubscribed = h.unsubscribed + 1; calls = h.calls ++ c ∷ [] }

-- OnClose
unfoldable pub on_close : Handler → Handler
unfolding finish
on_close h = finish closed_call h

-- Error
unfoldable pub on_error : Handler → Handler
unfolding finish
on_error h = finish error_call h

-- emit, in a loop that stops at the first error.
unfoldable pub emit_all : (Event → Bool) → (String → Event) → List String → Handler → Bool × Handler
emit_all accepts event [] h = (true, h)
emit_all accepts event (d ∷ ds) h =
    let (good, h') = handle accepts (event d) h in
    let rest = emit_all accepts event ds h' in if good then rest else (false, h')

pub record Observer : Type 0 where
  pub threshold : ℕ  -- uint8
  pub handler : Handler
  pub online : Counts

abbrev pub emit_removed : (Event → Bool) → Poll → Bool × Handler → Option Counts × Handler
emit_removed accepts p (false, h) = (none, h)
emit_removed accepts p (true, h) =
    let (good, h') = emit_all accepts went_offline p.removed h in
    (if good then some p.current else none, h')

-- observe: `found` are the devices that answered, or `none` where the discovery failed.
unfoldable pub observe : (Event → Bool) → Option (List String) → Observer → Option Counts × Handler
observe accepts none o = (none, o.handler)
observe accepts (some found) o =
    let p = process_devices o.threshold o.online found in
    emit_removed accepts p (emit_all accepts went_online p.added o.handler)

-- poll behind observe: whether the observer goes on, where its context is done or not.
abbrev pub after_observe : Bool → Observer → Option Counts × Handler → Bool × Observer
after_observe true o (r, h) = (false, record o { handler = on_close h })
after_observe false o (none, h) = (false, record o { handler = on_error h })
after_observe false o (some current, h) = (true, record o { handler = h; online = current })

-- A devicesObserver with its goroutine: whether that still polls, what its poll has of observe, and
-- whether the context is done.
pub record Watch : Type 0 where
  pub observer : Observer
  pub running : Bool
  pub observed : Option (Option Counts)
  pub context_done : Bool

unfoldable pub new_devices_observer : ℕ → Watch
new_devices_observer threshold = record {
  observer = record {
    threshold = threshold;
    handler = record { is_closed = false; unsubscribed = 0; calls = [] };
    online = [];
  };
  running = true;
  observed = none;
  context_done = false;
}

-- The first half of poll, where the goroutine is at it.
unfoldable pub poll_observe : (Event → Bool) → Option (List String) → Watch → Watch
poll_observe accepts found w =
    let (r, h) = observe accepts found w.observer in
    if w.running && not (is_some w.observed)
    then record w { observer = record (w.observer) { handler = h }; observed = some r }
    else w

-- The second half of poll, and the test of the loop.
abbrev pub end_poll : Option (Option Counts) → Watch → Watch
end_poll none w = w
end_poll (some r) w =
    let (more, o) = after_observe w.context_done w.observer (r, w.observer.handler) in
    record w { observer = o; running = more; observed = none }

unfoldable pub poll_end : Watch → Watch
poll_end w = end_poll w.observed w

-- Cancel, by whoever calls it: StopObservingDevices, for the subscription that it pops, or the Close of
-- the client. The handler's removeSubscription calls it too, where the handler is closed already and the
-- goroutine at its end, so that only the context is changed: this is left out of OnClose and Error.
unfoldable pub cancel : Watch → Watch
cancel w = record w {
  observer = record (w.observer) { handler = close (w.observer.handler) };
  context_done = true;
}

-- A run of the goroutine, in which Cancel may come between any two halves of a poll.
pub data Action : Type 0 where
  observes : (Event → Bool) → Option (List String) → Action
  ends cancels : Action

unfoldable pub step : Watch → Action → Watch
step w (observes accepts found) = poll_observe accepts found w
step w ends = poll_end w
step w cancels = cancel w

unfoldable pub run : Watch → List Action → Watch
run w [] = w
run w (a ∷ xs) = run (step w a) xs
