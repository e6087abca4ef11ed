-- ===== src/Service/Examples.antt =====
-- The theorems on bridge/service/service.go at a concrete service.
use device.Common.{String, ◌≡◌, refl, true, false, none, some, [], ◌∷◌}
use device.Common.Eq.{string_eq}
use device.Common.Dict.{lookup}
use device.Device.{Device}
use device.Service.{Service, handled_by, default_request_handler, create_device}
use device.Service.Registry.{create_device-routes}

abbrev plain : String → Device
plain id = record {
  id = id;
  resources = [];
  cloud_manager = none;
  stopped = false;
  closed_resources = [];
}

abbrev one_device : Service
one_device = record { devices = ("x", plain "x") ∷ [] }

create_device-routes_example :
    default_request_handler
      (record { uri_path = "/lamp"; device_id = "y"; is_get = true; is_multicast = false })
      (create_device "y" (some (plain "y")) one_device).1
    ≡ handled_by (plain "y")
unfolding create_device lookup
create_device-routes_example =
    create_device-routes "y" (some (plain "y")) one_device (plain "y")
      (record { uri_path = "/lamp"; device_id = "y"; is_get = true; is_multicast = false }) refl
      refl refl refl refl
