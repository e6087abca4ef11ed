-- ===== src/Client/Cache/Examples.antt =====
-- The theorems on client/deviceCache.go, on a concrete cache.
use device.Common.{false, some, [], ◌∷◌}
use device.Common.Eq.{string_eq}
use device.Client.Cache.{
  Device, Element, DeviceCache, update_or_store_device, got, stored_for_time, cleaned, run,
}
use device.Client.Cache.Permanent.{IsPermanent, update_or_store_device-stays}

abbrev lamp : Device
lamp = record { id = "lamp"; found_by_ip = ""; device_types = "light" ∷ []; endpoints = 1 }

abbrev timed_lamp : Element
timed_lamp = record { device = lamp; valid_until = some 20 }

abbrev cache : DeviceCache
cache = record {
  devices = ("lamp", timed_lamp) ∷ [];
  expiration = 10;
  closed = false;
  closed_devices = [];
}

update_or_store_device-stays_example : IsPermanent "lamp" (
    run false
      (update_or_store_device false 15 lamp cache).1
      (cleaned 40 ∷ stored_for_time 41 lamp ∷ got 42 "lamp" ∷ cleaned 90 ∷ []))
update_or_store_device-stays_example =
    update_or_store_device-stays false 15 lamp cache
      (cleaned 40 ∷ stored_for_time 41 lamp ∷ got 42 "lamp" ∷ cleaned 90 ∷ [])
