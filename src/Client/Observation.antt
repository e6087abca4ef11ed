-- ===== src/Client/Observation.antt =====
-- client/core/observeResource.go: the observations of a device, and the handler that guards the
-- user's. Whether the cancellation of an observation succeeds is an argument.
pub mod Endings
mod Examples
use device.Common.{
  ℕ, suc, String, ◌==◌, Bool, true, false, not, ◌&&◌, ◌||◌, Option, none, some, List, [], ◌∷◌, ◌++◌,
  if◌then◌else◌,
}
use device.Common.Eq.{string_eq}
use device.Common.Dict.{lookup, store, remove}

-- What the user's handler was told.
pub data Call : Type 0 where
  handled closed_call error_call : Call

-- observationHandler
pub record Handler : Type 0 where
  pub is_closed : Bool
  pub calls : List Call

-- disableHandlers
unfoldable pub disable_handlers : Handler → Handler
disable_handlers h = record h { is_closed = true }

-- Handle
unfoldable pub handle : Handler → Handler
handle h = if h.is_closed then h else record h { calls = h.calls ++ handled ∷ [] }

-- Error
unfoldable pub on_error : Handler → Handler
on_error h =
    if h.is_closed then h else record { is_closed = true; calls = h.calls ++ error_call ∷ [] }

-- OnClose, and Close, which calls it.
unfoldable pub on_close : Handler → Handler
on_close h =
    if h.is_closed then h else record { is_closed = true; calls = h.calls ++ closed_call ∷ [] }

-- `registered`: the close handler of the connection; `established`: Observe has returned.
pub record Observation : Type 0 where
  pub handler : Handler
  pub registered : Bool
  pub established : Bool
  pub cancels : ℕ

-- `stopped` keeps the observations that were taken out of the map, as they are then.
pub record Device : Type 0 where
  pub observations : List (String × Observation)
  pub stopped : List (String × Observation)

-- observation.stop; an observation that is not established yet is only unregistered.
unfoldable pub stop : Bool → Observation → Observation
stop by_close o =
    if o.established
    then record o {
      registered = false;
      handler = if by_close then on_close o.handler else disable_handlers o.handler;
      cancels = suc o.cancels;
    }
    else record o { registered = false }

-- The result of a stop: whether there was an observation to stop, or the error of its cancellation.
pub data Stopped : Type 0 where
  stopped not_found cancel_failed : Stopped

abbrev stop_found : Bool → Bool → String → Option Observation → Device → Stopped × Device
stop_found by_close cancels id none d = (not_found, d)
stop_found by_close cancels id (some o) d = (
  if o.established && not cancels then cancel_failed else Stopped.stopped,
  record d {
    observations = remove id d.observations;
    stopped = d.stopped ++ (id, stop by_close o) ∷ [];
  },
)

-- stopObservingResource
unfoldable pub stop_observing_resource : Bool → Bool → String → Device → Stopped × Device
stop_observing_resource by_close cancels id d =
    stop_found by_close cancels id (lookup id d.observations) d

-- The keys that a Range visits: it goes on as long as its function returns true.
unfoldable pub visited : (String → Bool) → List (String × Observation) → List String
visited f [] = []
visited f ((k, o) ∷ m) = let rest = visited f m in if f k then k ∷ rest else k ∷ []

unfoldable pub close_each : Bool → List String → Device → Device
close_each cancels [] d = d
close_each cancels (id ∷ ids) d =
    close_each cancels ids (stop_observing_resource true cancels id d).1

-- closeObservations: the function that collects the IDs returns false.
unfoldable pub close_observations : Bool → Device → Device
close_observations cancels d = close_each cancels (visited (λ k. false) d.observations) d

-- observeResource where Observe fails, and where it returns.
unfoldable pub observe_resource : Bool → String → Device → Device
observe_resource observes id d =
    if observes
    then record d {
      observations =
          store id
            (record {
              handler = record { is_closed = false; calls = [] };
              registered = true;
              established = true;
              cancels = 0;
            })
            d.observations;
    }
    else d

abbrev pub closed_observation : String → Option Observation → Device → Device
closed_observation id none d = d
closed_observation id (some o) d = record d {
  observations = store id (record o { handler = on_close o.handler }) d.observations;
}

-- The close handler of the connection: OnClose, and then StopObservingResource, whose error goes to
-- a handler that is closed.
unfoldable pub connection_closed : Bool → String → Device → Device
connection_closed cancels id d =
    (stop_observing_resource false cancels id
      (closed_observation id (lookup id d.observations) d)).1

-- The connection holds the handler of an observation also after it was taken out of the map.
abbrev pub on_each :
    (Handler → Handler) → String → List (String × Observation) → List (String × Observation)
on_each f id [] = []
on_each f id ((k, o) ∷ m) =
    (k, if k == id then record o { handler = f o.handler } else o) ∷ on_each f id m

abbrev pub with_handler : (Handler → Handler) → String → Device → Device
with_handler f id d = record {
  observations = on_each f id d.observations;
  stopped = on_each f id d.stopped;
}

-- What happens to a device: Observe is called, an observation is notified, meets an error or loses its
-- connection, the user stops it, and the device is closed.
pub data Event : Type 0 where
  observes : Bool → String → Event
  notified failed : String → Event
  connection_lost stops : Bool → String → Event
  closes : Bool → Event

unfoldable pub step : Device → Event → Device
step d (observes ok id) = observe_resource ok id d
step d (notified id) = with_handler handle id d
step d (failed id) = with_handler on_error id d
step d (connection_lost cancels id) = connection_closed cancels id d
step d (stops cancels id) = (stop_observing_resource false cancels id d).1
step d (closes cancels) = close_observations cancels d

unfoldable pub run : Device → List Event → Device
run d [] = d
run d (e ∷ es) = run (step d e) es
