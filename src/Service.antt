-- ===== src/Service.antt =====
-- bridge/service/service.go: the devices of a bridge and the routing of requests to them. Each call
-- on the map of devices is atomic, as its lock makes it.
pub mod Registry
mod Examples
use device.Common.{
  String, ◌==◌, Bool, true, false, ◌&&◌, Option, none, some, List, [], ◌∷◌, if◌then◌else◌,
}
use device.Common.Eq.{string_eq}
use device.Common.Dict.{lookup, store, remove}
use device.Device.{Device, nil_uuid, close_device}

pub record Service : Type 0 where
  pub devices : List (String × Device)

-- What a request asks: its URI path, its `di` query (the nil UUID where there is none or it does not
-- parse), whether its code is GET, and whether it came by multicast.
pub record Request : Type 0 where
  pub uri_path : String
  pub device_id : String
  pub is_get : Bool
  pub is_multicast : Bool

-- What becomes of a request: no response, the links of all devices, an error that says the query is
-- not set, or names a device that is not found, and the device that handles it.
pub data Route : Type 0 where
  ignored : Route
  discover_all : Route
  not_set : Route
  not_found : String → Route
  handled_by : Device → Route

-- LoadDevice
unfoldable pub load_device : String → Service → Option Device
load_device di c = lookup di c.devices

abbrev loaded_route : Option Device → Request → Route
loaded_route (some d) req = handled_by d
loaded_route none req = if req.is_multicast then ignored else not_found req.device_id

abbrev resource_uri : String
resource_uri = "/oic/res"

-- DefaultRequestHandler
unfoldable pub default_request_handler : Request → Service → Route
default_request_handler req c =
    if req.uri_path == ""
    then ignored
    else if req.is_get && (req.uri_path == "/.well-known/core")
    then ignored
    else if req.is_get && (req.uri_path == resource_uri) && (req.device_id == nil_uuid)
    then discover_all
    else if req.device_id == nil_uuid
    then not_set
    else loaded_route (load_device req.device_id c) req

pub data CreateError : Type 0 where
  new_device_failed already_exists : CreateError

pub data Created : Type 0 where
  created : Device → Created
  create_error : CreateError → Created

-- The map that ReplaceWithFunc leaves, by what was there and what newDevice returned.
unfoldable pub replaced :
    Option Device → Option Device → String → List (String × Device) → List (String × Device)
replaced (some old) new_device id m = store id old m
replaced none none id m = remove id m
replaced none (some d) id m = store id d m

abbrev create_result : Option Device → Option Device → Created
create_result (some old) new_device = create_error already_exists
create_result none none = create_error new_device_failed
create_result none (some d) = created d

-- CreateDevice; newDevice is called only where no device is there.
unfoldable pub create_device : String → Option Device → Service → Created × Service
create_device id new_device c =
    let old = lookup id c.devices in
    (create_result old new_device, record c { devices = replaced old new_device id c.devices })

abbrev get_or_create_result : Option Device → Option Device → Option (Device × Bool)
get_or_create_result (some old) new_device = some (old, true)
get_or_create_result none none = none
get_or_create_result none (some d) = some (d, false)

-- GetOrCreateDevice: the device and whether it was loaded, or none where newDevice failed.
unfoldable pub get_or_create_device :
    String → Option Device → Service → Option (Device × Bool) × Service
get_or_create_device id new_device c =
    let old = lookup id c.devices in
    (
      get_or_create_result old new_device,
      record c { devices = replaced old new_device id c.devices },
    )

-- GetAndDeleteDevice
unfoldable pub get_and_delete_device : String → Service → Option Device × Service
get_and_delete_device id c = (lookup id c.devices, record c { devices = remove id c.devices })

abbrev closed_device : Option Device × Service → (Bool × Option Device) × Service
closed_device (none, c) = ((false, none), c)
closed_device (some d, c) = ((true, some (close_device d)), c)

-- DeleteAndCloseDevice: the result, the device as Close leaves it, and the service.
unfoldable pub delete_and_close_device : String → Service → (Bool × Option Device) × Service
unfolding get_and_delete_device
delete_and_close_device id c = closed_device (get_and_delete_device id c)

abbrev close_all : List (String × Device) → List Device
close_all [] = []
close_all ((k, d) ∷ m) = close_device d ∷ close_all m

-- Shutdown where the network closes: the devices as Close leaves them. Else nothing changes.
unfoldable pub shutdown : Bool → Service → Option (List Device) × Service
shutdown net_closes c =
    if net_closes then (some (close_all c.devices), record c { devices = [] }) else (none, c)
