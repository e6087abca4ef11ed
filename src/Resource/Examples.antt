-- ===== src/Resource/Examples.antt =====
-- The theorems on bridge/resources at a concrete resource.
use device.Common.{ℕ, ◌≡◌, refl, true, false, none, some, List, [], ◌∷◌}
use device.Common.Dict.{lookup, store}
use device.Resource.{
  Resource, get, close, new_resource, set_observe_handler, handle_request, observer_handler,
  replace_subscription,
}
use device.Resource.Observers.{Event, observable_set, requested, among, run, step, close-cancels}

abbrev lamp : Resource
lamp = record {
  href = "/lamp";
  resource_interfaces = "oic.if.rw" ∷ [];
  policy_bit_mask = 129;
  has_get = true;
  has_post = false;
  has_create_subscription = false;
  has_loop = false;
  closed = false;
  subscriptions = [];
  created = [];
  cancelled = [];
  etag = 5;
  resource_types = "light" ∷ [];
}

abbrev subscribes : ℕ → Event
subscribes n =
    requested (record { subscribed = some n; got = some true; posted = none })
      (record { code = get; observe = some 0; remote = "peer" })

abbrev fresh : Resource
fresh = new_resource "/lamp" true false ("light" ∷ []) ("oic.if.rw" ∷ []) 5

-- The subscription that is made first is replaced by the second of the same peer.
abbrev events : List Event
events = observable_set true ∷ subscribes 3 ∷ subscribes 4 ∷ []

close-cancels_example : among 4 (close (run fresh events)).cancelled ≡ true
unfolding run step new_resource set_observe_handler handle_request observer_handler
    replace_subscription lookup store
close-cancels_example =
    close-cancels "/lamp" true false ("light" ∷ []) ("oic.if.rw" ∷ []) 5 events 4 refl
