-- ===== src/Client/Discovery/Examples.antt =====
-- The theorem on client/core/getDevices.go, on concrete answers.
use device.Common.{◌≤◌, String, ◌≡◌, Bool, true, false, none, List, [], ◌∷◌, if◌then◌else◌}
use device.Common.Keys.{has}
use device.Schema.Link.{ResourceLink}
use device.Client.Discovery.{run, new_handler}
use device.Client.Discovery.Once.{times, run-once}

abbrev link : String → ResourceLink
link device_id = record {
  id = "";
  href = "/oic/d";
  resource_types = "oic.wk.d" ∷ [];
  interfaces = [];
  policy = none;
  endpoints = [];
  anchor = "";
  device_id = device_id;
  instance_id = 0;
  title = "";
  supported_content_types = [];
}

-- The device "a" answers twice, once along with "b".
abbrev answers : List (Bool × List ResourceLink)
answers = (false, link "a" ∷ []) ∷ (true, link "b" ∷ link "a" ∷ link "" ∷ []) ∷ []

run-once_example :
    (times "a" (run answers new_handler).handled.devices ≤ 1)
    × (times "a" (run answers new_handler).handled.devices
        ≡ (if has "a" (run answers new_handler).filter_discovered_devices then 1 else 0))
run-once_example = run-once answers "a"
