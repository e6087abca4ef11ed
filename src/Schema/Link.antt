-- ===== src/Schema/Link.antt =====
-- schema/link.go: resource links, their endpoints and policy, and the lookups by type, href and
-- device. A JSON string that is absent is the empty text; a nil pointer is `none`.
use Prim.Native.Nat.{bit_and}
use Prim.Native.String.{slice, len}
use text.Mathlib.Text.{starts_with}
use device.Common.{
  ℕ, String, ◌==◌, Bool, not, Option, none, some, List, [], ◌∷◌, if◌then◌else◌, eqb, keep, any,
}
use device.Common.Keys.{has}

pub record Endpoint : Type 0 where
  pub uri : String
  pub priority : ℕ

pub record Policy : Type 0 where
  pub bit_mask : ℕ  -- uint8
  pub udp_port : ℕ  -- uint16
  pub tcp_port : ℕ  -- uint16
  pub tcp_tls_port : ℕ  -- uint16
  pub secured : Option Bool

pub record ResourceLink : Type 0 where
  pub id : String
  pub href : String
  pub resource_types : List String
  pub interfaces : List String
  pub policy : Option Policy
  pub endpoints : List Endpoint
  pub anchor : String
  pub device_id : String
  pub instance_id : ℕ  -- int64
  pub title : String
  pub supported_content_types : List String

-- const (Discoverable BitMask = 1 << iota; Observable)
abbrev pub discoverable : ℕ
discoverable = 1

abbrev pub observable : ℕ
observable = 2

-- BitMask.Has
unfoldable pub has_flag : ℕ → ℕ → Bool
has_flag b flag = not (eqb (bit_and b flag) 0)

-- ResourceLink.HasType
unfoldable pub has_type : ResourceLink → String → Bool
has_type r resource_type = has resource_type r.resource_types

-- ResourceLinks.GetResourceLink
unfoldable pub get_resource_link : List ResourceLink → String → Option ResourceLink
get_resource_link [] href = none
get_resource_link (r ∷ rs) href = if r.href == href then some r else get_resource_link rs href

-- kitStrings.Set.HasOneOf over the set of the resource types asked for.
abbrev pub has_one_of : List String → List String → Bool
has_one_of rt types = any (λ t. has t rt) types

-- ResourceLinks.GetResourceLinks
unfoldable pub get_resource_links : List ResourceLink → List String → List ResourceLink
get_resource_links rs rt = keep (λ r. has_one_of rt r.resource_types) rs

-- strings.TrimPrefix
abbrev pub trim_prefix : String → String → String
trim_prefix s prefix = if starts_with s prefix then slice s (len prefix) (len s) else s

-- ResourceLink.GetDeviceID
unfoldable pub get_device_id : ResourceLink → String
get_device_id r = if not (r.device_id == "") then r.device_id else trim_prefix r.anchor "ocf://"

-- ResourceLinks.FilterByDeviceID
unfoldable pub filter_by_device_id : List ResourceLink → String → List ResourceLink
filter_by_device_id rs device_id = keep (λ r. get_device_id r == device_id) rs
