-- ===== src/Client/Discovery.antt =====
-- client/core/getDevices.go: the handler of the answers to a multicast request, which hands every
-- device on once.
pub mod Once
mod Examples
use device.Common.{
  ℕ, suc, String, ◌==◌, Bool, true, false, Option, none, some, List, [], ◌∷◌, ◌++◌, is_empty,
  if◌then◌else◌,
}
use device.Common.Keys.{has, insert}
use device.Common.Eq.{string_eq}
use device.Common.Dict.{lookup, store}
use device.Schema.Link.{ResourceLink, get_device_id, get_resource_link}

-- What was handed on: a device with its types, by its ID, and errors.
pub record Handled : Type 0 where
  pub devices : List (String × List String)
  pub errors : ℕ

-- discoveryHandler
pub record Handler : Type 0 where
  pub filter_discovered_devices : List String
  pub handled : Handled

abbrev pub report : Handler → Handler
report h = record h { handled = record h.handled { errors = suc h.handled.errors } }

abbrev pub links_of : Option (List ResourceLink) → List ResourceLink
links_of none = []
links_of (some ls) = ls

-- The first loop of Handle: the links of each device, and the handler with its errors.
unfoldable pub group_links :
    List ResourceLink
    → List (String × List ResourceLink)
    → Handler
    → List (String × List ResourceLink) × Handler
group_links [] m h = (m, h)
group_links (l ∷ ls) m h =
    let id = get_device_id l in
    let skipped = group_links ls m (report h) in
    let grouped = group_links ls (store id (links_of (lookup id m) ++ l ∷ []) m) h in
    if id == "" then skipped else grouped

abbrev pub or_else : Option ResourceLink → Option ResourceLink → Option ResourceLink
or_else none other = other
or_else (some l) other = some l

abbrev pub hand_on : String → Option ResourceLink → Handler → Handler
hand_on id none h = report h
hand_on id (some l) h =
    if is_empty l.resource_types
    then report h
    else if has id h.filter_discovered_devices
    then h
    else record {
      filter_discovered_devices = insert id h.filter_discovered_devices;
      handled = record h.handled { devices = h.handled.devices ++ (id, l.resource_types) ∷ [] };
    }

-- The second loop of Handle.
unfoldable pub hand_on_all : List (String × List ResourceLink) → Handler → Handler
hand_on_all [] h = h
hand_on_all ((id, ls) ∷ m) h =
    hand_on_all m
      (hand_on id (or_else (get_resource_link ls "/oic/d") (get_resource_link ls "/oic/res")) h)

abbrev pub hand_on_groups : List (String × List ResourceLink) × Handler → Handler
hand_on_groups (m, h) = hand_on_all m h

-- Handle; `close_fails` is an error of conn.Close.
unfoldable pub handle : Bool → List ResourceLink → Handler → Handler
handle close_fails links h =
    hand_on_groups (group_links links [] (if close_fails then report h else h))

-- The answers that come, each with the error of its connection.
unfoldable pub run : List (Bool × List ResourceLink) → Handler → Handler
run [] h = h
run ((close_fails, links) ∷ answers) h = run answers (handle close_fails links h)

abbrev pub new_handler : Handler
new_handler = record {
  filter_discovered_devices = [];
  handled = record { devices = []; errors = 0 };
}
