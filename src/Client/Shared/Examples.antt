-- ===== src/Client/Shared/Examples.antt =====
-- The theorems on client/observeResource.go, on concrete clients.
use device.Common.{◌≡◌, refl, true, false, none, some, [], ◌∷◌, is_empty, ◌⊎◌}
use device.Common.Keys.{has, delete}
use device.Common.Eq.{string_eq}
use device.Common.Dict.{lookup, store}
use device.Client.Shared.{
  Group, Client, new_handler, observed, observe_resource, still_observed, stopped_device,
  stop_observing_resource,
}
use device.Client.Shared.Sharing.{observe_resource-after_failure, stop_observing_resource_lem}

abbrev no_client : Client
no_client = record { cache = []; handlers = []; active = [] }

observe_resource-after_failure_example :
    ((observe_resource "d/light" "u2"
        (some ("o", "d"))
        (observe_resource "d/light" "u1" none no_client).1).0
      ≡ observed "d/light" "u2")
    × ((observe_resource "d/light" "u2"
          (some ("o", "d"))
          (observe_resource "d/light" "u1" none no_client).1).1.active
        ≡ [])
unfolding observe_resource lookup
observe_resource-after_failure_example =
    observe_resource-after_failure "d/light" "u1" "u2" (some ("o", "d")) no_client refl

abbrev two_users : Group
two_users = record {
  observation_id = "o";
  device = some "d";
  last_message = some 3;
  observers = "u1" ∷ "u2" ∷ [];
}

abbrev busy_client : Client
busy_client = record {
  cache = ("d/light", two_users) ∷ [];
  handlers = ("u1", new_handler none) ∷ ("u2", new_handler (some 3)) ∷ [];
  active = "o" ∷ [];
}

stop_observing_resource_lem_example :
    ((is_empty (delete "u1" two_users.observers) ≡ true)
      × ((stop_observing_resource "d/light" "u1" busy_client).0 ≡ stopped_device "o")
      × (has "o" (stop_observing_resource "d/light" "u1" busy_client).1.active ≡ false)
      × (lookup "d/light" (stop_observing_resource "d/light" "u1" busy_client).1.cache ≡ none))
    ⊎ ((is_empty (delete "u1" two_users.observers) ≡ false)
        × ((stop_observing_resource "d/light" "u1" busy_client).0 ≡ still_observed)
        × ((stop_observing_resource "d/light" "u1" busy_client).1.active ≡ busy_client.active)
        × (lookup "d/light" (stop_observing_resource "d/light" "u1" busy_client).1.cache
            ≡ some (record two_users { observers = delete "u1" two_users.observers })))
unfolding lookup
stop_observing_resource_lem_example =
    stop_observing_resource_lem "d/light" "u1" "d" two_users busy_client refl refl refl

stop_last :
    (stop_observing_resource "d/light" "u2"
      (stop_observing_resource "d/light" "u1" busy_client).1).1.active
    ≡ []
unfolding stop_observing_resource lookup store delete
stop_last = refl
