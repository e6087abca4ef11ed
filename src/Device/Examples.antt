-- ===== src/Device/Examples.antt =====
-- The theorems on bridge/device/device.go at a concrete device.
use device.Common.{◌≡◌, refl, true, false, some, [], ◌∷◌}
use device.Common.Keys.{has}
use device.Common.Eq.{string_eq}
use device.Common.Dict.{lookup}
use device.Resource.{Resource}
use device.Cloud.State.{Manager}
use device.Cloud.Publish.{hrefs}
use device.Cloud.Connect.{zero_manager}
use device.Device.{
  Device, nil_uuid, publishes, add_resources, get_links_filtered_by, close_and_delete_resource,
}
use device.Device.Links.{waiting, add_resources-publishes, close_and_delete_resource_lem}

abbrev lamp : Resource
lamp = record {
  href = "/lamp";
  resource_interfaces = "oic.if.rw" ∷ [];
  policy_bit_mask = 129;
  has_get = true;
  has_post = false;
  has_create_subscription = false;
  has_loop = false;
  closed = false;
  subscriptions = [];
  created = [];
  cancelled = [];
  etag = 5;
  resource_types = "light" ∷ [];
}

abbrev bridged : Device
bridged = record {
  id = "d";
  resources = ("/lamp", lamp) ∷ [];
  cloud_manager = some (zero_manager 10);
  stopped = false;
  closed_resources = [];
}

add_resources-publishes_example :
    (m' : Manager) × ((add_resources (lamp ∷ []) bridged).cloud_manager ≡ some m')
    × (has "/lamp" m'.ready_to_publish ≡ true)
    × (has "/lamp" m'.ready_to_unpublish ≡ false)
unfolding publishes
add_resources-publishes_example =
    add_resources-publishes (lamp ∷ []) bridged (zero_manager 10) "/lamp" refl refl

close_and_delete_resource_lem_example :
    (has "/lamp" (
        hrefs
          (get_links_filtered_by [] nil_uuid [] 0 (close_and_delete_resource "/lamp" bridged).1))
      ≡ false)
    × (waiting "/lamp" (close_and_delete_resource "/lamp" bridged).1.cloud_manager
        ≡ some (true, false))
unfolding lookup publishes
close_and_delete_resource_lem_example =
    close_and_delete_resource_lem bridged lamp "/lamp" [] nil_uuid [] 0 (refl, tt) refl
