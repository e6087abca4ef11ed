-- ===== src/Client/Details/Examples.antt =====
-- The theorem on client/getDevices.go, on concrete devices.
use device.Common.{ℕ, String, ◌==◌, ◌≡◌, true, Option, none, some, List, [], ◌∷◌, is_some, any}
use device.Common.Eq.{string_eq}
use device.Common.Dict.{lookup}
use device.Client.Details.{DeviceDetails, described, unknown, set_ownership, merge_devices}
use device.Client.Details.Merged.{details_of, last_details, get_devices_details_lem}

abbrev found_device : String → Option ℕ → DeviceDetails
found_device id details = record {
  id = id;
  found_by_ip = "";
  details = details;
  is_secured = true;
  ownership = none;
  resources = [];
  endpoints = [];
  ownership_status = unknown;
}

abbrev found_devices : List DeviceDetails
found_devices =
    found_device "a" (some 1)
    ∷ found_device "b" none
    ∷ found_device "a" (some 2)
    ∷ found_device "a" none
    ∷ []

get_devices_details_lem_example :
    (is_some (
        lookup "a" (
          set_ownership "me"
            (merge_devices (λ es. es) found_devices [])
            (("a", described "me") ∷ [])))
      ≡ any (λ i. i.id == "a") found_devices)
    × (details_of (
          lookup "a" (
            set_ownership "me"
              (merge_devices (λ es. es) found_devices [])
              (("a", described "me") ∷ [])))
        ≡ last_details "a" found_devices none)
get_devices_details_lem_example =
    get_devices_details_lem (λ es. es) "me" "a" found_devices (("a", described "me") ∷ [])
