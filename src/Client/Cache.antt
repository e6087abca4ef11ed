-- ===== src/Client/Cache.antt =====
-- client/deviceCache.go: the devices that the client knows, some of them only for a time. The elements
-- of go-coap's cache are a list by the ID of the device. Whether the cache still gives out an element
-- whose time is over, before it is cleaned up, is the argument `stale`.
pub mod Permanent
mod Examples
use device.Common.{
  ℕ, suc, ◌+◌, String, ◌==◌, Bool, true, false, not, ◌&&◌, ◌||◌, Option, none, some, List, [], ◌∷◌,
  ◌++◌, map, keep, ltb, eqb, is_some, is_empty, if◌then◌else◌,
}
use device.Common.Eq.{string_eq}
use device.Common.Dict.{lookup, store, remove}

-- core.Device: its endpoints are a function, of which the number stands here.
pub record Device : Type 0 where
  pub id : String
  pub found_by_ip : String
  pub device_types : List String
  pub endpoints : ℕ

-- UpdateBy of client/core/device.go, for another device.
unfoldable pub update_by : Device → Device → Device
update_by d v = record {
  id = v.id;
  found_by_ip = if not (v.found_by_ip == "") then v.found_by_ip else d.found_by_ip;
  device_types = v.device_types;
  endpoints = v.endpoints;
}

-- cache.Element; no ValidUntil is the zero time.
pub record Element : Type 0 where
  pub device : Device
  pub valid_until : Option ℕ

-- IsExpired
abbrev pub is_over : Option ℕ → ℕ → Bool
is_over none now = false
is_over (some valid) now = ltb valid now

abbrev pub is_expired : ℕ → Element → Bool
is_expired now e = is_over e.valid_until now

-- `closed_devices` are those that were closed, by an eviction or by Close.
pub record DeviceCache : Type 0 where
  pub devices : List (String × Element)
  pub expiration : ℕ
  pub closed : Bool
  pub closed_devices : List Device

-- getNextExpiration
unfoldable pub get_next_expiration : ℕ → ℕ → Option ℕ
get_next_expiration expiration now = if eqb expiration 0 then none else some (now + expiration)

-- deviceIsStoredWithExpiration
unfoldable pub device_is_stored_with_expiration : Element → Bool
device_is_stored_with_expiration e = is_some e.valid_until

abbrev pub evict : ℕ → List (String × Element) → List (String × Element)
evict now m = keep (λ e. not (is_expired now e.1)) m

abbrev pub evicted : ℕ → List (String × Element) → List Device
evicted now m = map (λ e. e.1.device) (keep (λ e. is_expired now e.1) m)

-- CheckExpirations, which closes the devices that it evicts.
unfoldable pub check_expirations : ℕ → DeviceCache → DeviceCache
check_expirations now c = record c {
  devices = evict now c.devices;
  closed_devices = c.closed_devices ++ evicted now c.devices;
}

abbrev pub put_element : String → Element → DeviceCache → DeviceCache
put_element id e c = record c { devices = store id e c.devices }

module _ (stale : Bool) where
  abbrev pub seen : ℕ → Option Element → Option Element
  seen now none = none
  seen now (some e) = if is_expired now e && not stale then none else some e

  -- Load of the cache.
  unfoldable pub load : ℕ → String → DeviceCache → Option Element
  load now id c = seen now (lookup id c.devices)

  abbrev pub refreshed : ℕ → String → Option Element → DeviceCache → Option Device × DeviceCache
  refreshed now id none c = (none, c)
  refreshed now id (some e) c = (
    some e.device,
    if device_is_stored_with_expiration e
        then put_element id (record e { valid_until = get_next_expiration c.expiration now }) c
        else c,
  )

  -- GetDevice
  unfoldable pub get_device : ℕ → String → DeviceCache → Option Device × DeviceCache
  get_device now id c = refreshed now id (load now id c) c

  -- GetDeviceExpiration
  unfoldable pub get_device_expiration : ℕ → String → DeviceCache → Option (Option ℕ)
  get_device_expiration now id c = elim (load now id c) [
    | none ↦ none
    | some e ↦ some e.valid_until
  ]

  abbrev pub stored :
      Option Element → Device → Option ℕ → DeviceCache → (Device × Bool) × DeviceCache
  stored none device expiration c = (
    (device, false),
    put_element device.id (record { device = device; valid_until = expiration }) c,
  )
  stored (some e) device expiration c = (
    (update_by e.device device, true),
    put_element device.id
        (record {
          device = update_by e.device device;
          valid_until = if device_is_stored_with_expiration e then expiration else e.valid_until;
        })
        c,
  )

  -- updateOrStoreDevice
  unfoldable pub update_or_store :
      ℕ → Device → Option ℕ → DeviceCache → (Device × Bool) × DeviceCache
  update_or_store now device expiration c = stored (load now device.id c) device expiration c

  -- UpdateOrStoreDevice
  unfoldable pub update_or_store_device : ℕ → Device → DeviceCache → (Device × Bool) × DeviceCache
  update_or_store_device now device c = update_or_store now device none c

  -- UpdateOrStoreDeviceWithExpiration
  unfoldable pub update_or_store_device_with_expiration :
      ℕ → Device → DeviceCache → (Device × Bool) × DeviceCache
  update_or_store_device_with_expiration now device c =
      update_or_store now device (get_next_expiration c.expiration now) c

  abbrev pub changed : ℕ → String → Option Element → DeviceCache → Bool × DeviceCache
  changed now id none c = (false, c)
  changed now id (some e) c =
      if e.device.found_by_ip == ""
      then (
        true,
        put_element id (record e { valid_until = get_next_expiration c.expiration now }) c,
      )
      else (false, c)

  -- TryToChangeDeviceExpirationToDefault
  unfoldable pub try_to_change_device_expiration_to_default :
      ℕ → String → DeviceCache → Bool × DeviceCache
  try_to_change_device_expiration_to_default now id c = changed now id (load now id c) c

-- GetDeviceByFoundIP: the first that has not expired.
unfoldable pub get_device_by_found_ip : ℕ → String → List (String × Element) → List Device
get_device_by_found_ip now ip [] = []
get_device_by_found_ip now ip ((id, e) ∷ m) =
    let rest = get_device_by_found_ip now ip m in
    if is_expired now e then rest else if e.device.found_by_ip == ip then e.device ∷ [] else rest

-- GetDevicesFoundByIP
unfoldable pub get_devices_found_by_ip : ℕ → List (String × Element) → List (String × String)
get_devices_found_by_ip now [] = []
get_devices_found_by_ip now ((id, e) ∷ m) =
    let rest = get_devices_found_by_ip now m in
    if is_expired now e || (e.device.found_by_ip == "")
    then rest
    else (e.device.id, e.device.found_by_ip) ∷ rest

-- LoadAndDeleteDevices, of some IDs and of all; LoadAndDelete gives an element whatever its time.
unfoldable pub load_and_delete_each : List String → DeviceCache → List Device × DeviceCache
load_and_delete_each [] c = ([], c)
load_and_delete_each (id ∷ ids) c =
    let rest = load_and_delete_each ids (record c { devices = remove id c.devices }) in
    (elim (lookup id c.devices) [ none ↦ rest.0 | some e ↦ e.device ∷ rest.0 ], rest.1)

unfoldable pub load_and_delete_devices : List String → DeviceCache → List Device × DeviceCache
load_and_delete_devices ids c =
    if is_empty ids
    then (map (λ e. e.1.device) c.devices, record c { devices = [] })
    else load_and_delete_each ids c

-- LoadAndDeleteDevice
unfoldable pub load_and_delete_device : String → DeviceCache → Option Device × DeviceCache
load_and_delete_device id c =
    let r = load_and_delete_devices (id ∷ []) c in (elim r.0 [ [] ↦ none | d ∷ ds ↦ some d ], r.1)

-- Close
unfoldable pub close : DeviceCache → DeviceCache
close c = record c {
  closed = true;
  devices = [];
  closed_devices = c.closed_devices ++ map (λ e. e.1.device) c.devices;
}

-- What happens to the cache, but for the calls that take a device out or change its time.
pub data Event : Type 0 where
  got : ℕ → String → Event
  stored_for_good stored_for_time : ℕ → Device → Event
  cleaned : ℕ → Event

module _ (stale : Bool) where
  unfoldable pub step : DeviceCache → Event → DeviceCache
  step c (got now id) = (get_device stale now id c).1
  step c (stored_for_good now d) = (update_or_store_device stale now d c).1
  step c (stored_for_time now d) = (update_or_store_device_with_expiration stale now d c).1
  step c (cleaned now) = check_expirations now c

  unfoldable pub run : DeviceCache → List Event → DeviceCache
  run c [] = c
  run c (e ∷ es) = run (step c e) es
