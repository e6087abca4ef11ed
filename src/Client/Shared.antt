-- ===== src/Client/Shared.antt =====
-- client/observeResource.go: one observation of a resource serves all who observe it. The handlers
-- of the users are a store by the ID of each; a group holds the IDs of its own.
pub mod Sharing
mod Examples
use device.Common.{
  ℕ, suc, String, ◌==◌, Bool, true, false, not, ◌&&◌, ◌||◌, Option, none, some, List, [], ◌∷◌, ◌++◌,
  is_some, is_empty, if◌then◌else◌,
}
use device.Common.Keys.{has, insert, delete}
use device.Common.Eq.{string_eq}
use device.Common.Dict.{lookup, store, remove}

-- What a user's handler was told: a message, by its number.
pub data Call : Type 0 where
  handled : ℕ → Call
  closed_call error_call : Call

-- observationHandler
pub record Handler : Type 0 where
  pub is_closed : Bool
  pub first_message : Option ℕ
  pub calls : List Call

-- handleMessageLocked
unfoldable pub handle_message_locked : ℕ → Handler → Handler
handle_message_locked n h =
    if h.is_closed then h else record h { calls = h.calls ++ handled n ∷ [] }

-- HandleMessage
unfoldable pub handle_message : ℕ → Handler → Handler
unfolding handle_message_locked
handle_message n h = handle_message_locked n (record h { first_message = none })

abbrev first_of : Option ℕ → Handler → Handler
first_of none h = h
first_of (some n) h = handle_message_locked n h

-- HandleFirstMessage
unfoldable pub handle_first_message : Handler → Handler
handle_first_message h = first_of h.first_message h

-- The calls of the user's handler in OnClose and Error of observationsHandler.
unfoldable pub tell : Call → Handler → Handler
tell c h = record h { calls = h.calls ++ c ∷ [] }

-- observationsHandler; `device` is there once the device is observed, with `observation_id`.
pub record Group : Type 0 where
  pub observation_id : String
  pub device : Option String
  pub last_message : Option ℕ
  pub observers : List String

-- `active` are the observations of devices that were made and not stopped.
pub record Client : Type 0 where
  pub cache : List (String × Group)
  pub handlers : List (String × Handler)
  pub active : List String

abbrev pub new_handler : Option ℕ → Handler
new_handler m = record { is_closed = false; first_message = m; calls = [] }

-- What ObserveResource returns: the key and the ID of the observer, or an error.
pub data Observed : Type 0 where
  observed : String → String → Observed
  observe_error : Observed

abbrev join_group : String → String → Group → Client → Client
join_group key id g c = record c {
  cache = store key (record g { observers = insert id g.observers }) c.cache;
  handlers = store id (new_handler g.last_message) c.handlers;
}

abbrev pub empty_group : Group
empty_group = record { observation_id = ""; device = none; last_message = none; observers = [] }

-- The end of ObserveResource, with what ObserveResourceWithCodec returned: the ID of the observation
-- and the device, or an error, after which the group stays in the cache.
abbrev observe_device : String → String → Option (String × String) → Client → Observed × Client
observe_device key id none c = (observe_error, c)
observe_device key id (some (observation_id, device)) c = (
  observed key id,
  record c {
    cache =
        store key
          (record {
            observation_id = observation_id;
            device = some device;
            last_message = none;
            observers = id ∷ [];
          })
          c.cache;
    active = insert observation_id c.active;
  },
)

abbrev pub observe_in :
    Option Group → String → String → Option (String × String) → Client → Observed × Client
observe_in (some g) key id result c = (observed key id, join_group key id g c)
observe_in none key id result c = observe_device key id result (join_group key id empty_group c)

-- ObserveResource of the resource with this key, with a new ID.
unfoldable pub observe_resource :
    String → String → Option (String × String) → Client → Observed × Client
observe_resource key id result c = observe_in (lookup key c.cache) key id result c

-- What StopObservingResource did: nothing, or it stopped the device's observation.
pub data Left : Type 0 where
  still_observed : Left
  stopped_device : String → Left

abbrev pub left_group : Group → Left
left_group g = elim g.device [ none ↦ still_observed | some dev ↦ stopped_device g.observation_id ]

abbrev pub without : String → Left → Client → Left × Client
without key still_observed c = (still_observed, c)
without key (stopped_device o) c = (stopped_device o, record c { active = delete o c.active })

abbrev pub leave : Option Group → String → String → Client → Left × Client
leave none key id c = (still_observed, c)
leave (some g) key id c =
    if not (has id g.observers)
    then (still_observed, c)
    else if is_empty (delete id g.observers)
    then without key (left_group g) (record c { cache = remove key c.cache })
    else (
      still_observed,
      record c { cache = store key (record g { observers = delete id g.observers }) c.cache },
    )

-- StopObservingResource, up to the expiration of the device in the cache, which it sets back, and to
-- the error of the device's own StopObservingResource, which it returns; neither changes a group.
unfoldable pub stop_observing_resource : String → String → Client → Left × Client
stop_observing_resource key id c = leave (lookup key c.cache) key id c

-- The calls of a method of each handler in a group.
unfoldable pub each :
    (Handler → Handler) → List String → List (String × Handler) → List (String × Handler)
each f ids [] = []
each f ids ((k, h) ∷ m) = (k, if has k ids then f h else h) ∷ each f ids m

abbrev pub handle_in : Option Group → String → ℕ → Client → Client
handle_in none key n c = c
handle_in (some g) key n c = record c {
  cache = store key (record g { last_message = some n }) c.cache;
  handlers = each (handle_message n) g.observers c.handlers;
}

-- Handle
unfoldable pub handle : String → ℕ → Client → Client
handle key n c = handle_in (lookup key c.cache) key n c

abbrev pub end_in : Option Group → String → Call → Client → Client
end_in none key call c = c
end_in (some g) key call c = record c {
  cache = remove key c.cache;
  handlers = each (tell call) g.observers c.handlers;
  active = elim g.device [ none ↦ c.active | some dev ↦ delete g.observation_id c.active ];
}

-- OnClose and Error, with closeObservingResource.
unfoldable pub on_close : String → Client → Client
on_close key c = end_in (lookup key c.cache) key closed_call c

unfoldable pub on_error : String → Client → Client
on_error key c = end_in (lookup key c.cache) key error_call c

-- The goroutine of ObserveResource, when it runs.
unfoldable pub first_message : String → Client → Client
first_message id c = record c { handlers = each handle_first_message (id ∷ []) c.handlers }
