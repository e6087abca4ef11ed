-- ===== src/Client/Details.antt =====
-- client/getDevices.go: how GetDevicesDetails puts together what it found of each device, and who owns
-- it. Details are what a function of the user returned, as a number.
pub mod Merged
mod Examples
use device.Common.{
  ℕ, String, ◌==◌, Bool, true, false, not, ◌&&◌, Option, none, some, List, [], ◌∷◌, ◌++◌, is_some,
  if◌then◌else◌,
}
use device.Common.Eq.{string_eq}
use device.Common.Dict.{lookup, store}
use device.Schema.Link.{Endpoint, ResourceLink}

pub data OwnershipStatus : Type 0 where
  ready_to_be_owned is_owned owned_by_other unknown : OwnershipStatus

-- DeviceDetails; of the ownership the ID of the owner.
pub record DeviceDetails : Type 0 where
  pub id : String
  pub found_by_ip : String
  pub details : Option ℕ
  pub is_secured : Bool
  pub ownership : Option String
  pub resources : List ResourceLink
  pub endpoints : List Endpoint
  pub ownership_status : OwnershipStatus

-- ownership: of a device that is not described, the status.
pub data Ownership : Type 0 where
  described : String → Ownership
  status : OwnershipStatus → Ownership

abbrev pub or_old : Option ℕ → Option ℕ → Option ℕ
or_old none old = old
or_old (some v) old = some v

-- The last loop of mergeEndpoints, from the last URI.
unfoldable pub without_repeats : String → List Endpoint → List Endpoint
without_repeats last [] = []
without_repeats last (e ∷ es) =
    let rest = without_repeats e.uri es in if not (last == e.uri) then e ∷ rest else rest

abbrev pub set_status : String → String → OwnershipStatus
set_status owner_id id =
    if id == "00000000-0000-0000-0000-000000000000"
    then ready_to_be_owned
    else if id == owner_id
    then is_owned
    else owned_by_other

abbrev pub with_ownership : String → Ownership → DeviceDetails → DeviceDetails
with_ownership owner_id (status s) d = record d { ownership_status = s }
with_ownership owner_id (described id) d = record d {
  ownership = some id;
  ownership_status = set_status owner_id id;
}

abbrev pub set_one :
    String
    → String
    → Ownership
    → Option DeviceDetails
    → List (String × DeviceDetails)
    → List (String × DeviceDetails)
set_one owner_id id o none m = m
set_one owner_id id o (some d) m =
    if not (is_some d.ownership) then store id (with_ownership owner_id o d) m else m

-- setOwnership
unfoldable pub set_ownership :
    String
    → List (String × DeviceDetails)
    → List (String × Ownership)
    → List (String × DeviceDetails)
set_ownership owner_id m [] = m
set_ownership owner_id m ((id, o) ∷ os) =
    set_ownership owner_id (set_one owner_id id o (lookup id m) m) os

-- The two stable sorts of mergeEndpoints, by the URI and then by the priority, are an argument.
module _ (sort : List Endpoint → List Endpoint) where
  -- mergeEndpoints
  unfoldable pub merge_endpoints : List Endpoint → List Endpoint → List Endpoint
  merge_endpoints a b = without_repeats "" (sort (a ++ b))

  abbrev pub merged : DeviceDetails → Option DeviceDetails → DeviceDetails
  merged i none = i
  merged i (some d) = record d {
    endpoints = merge_endpoints d.endpoints i.endpoints;
    details = or_old i.details d.details;
  }

  -- mergeDevices
  unfoldable pub merge_devices :
      List DeviceDetails → List (String × DeviceDetails) → List (String × DeviceDetails)
  merge_devices [] m = m
  merge_devices (i ∷ found) m = merge_devices found (store i.id (merged i (lookup i.id m)) m)
