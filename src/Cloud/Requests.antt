-- ===== src/Cloud/Requests.antt =====
-- bridge/device/cloud/manager.go: the requests that the cloud sends over its connection, serveCOAP and
-- what it routes to.
pub mod Published
mod Examples
use Prim.Native.String.{slice, len, ◌++◌ as str_append}
use text.Mathlib.Text.{starts_with}
use device.Common.{
  ℕ, String, ◌==◌, Bool, true, false, not, ◌&&◌, Option, none, some, List, [], ◌∷◌, ltb,
  if◌then◌else◌,
}
use device.Schema.Link.{ResourceLink, has_type}
use device.Device.{patch_links}
use device.Cloud.Publish.{device_type, device_uri, patch_device_link}

-- plgdResources.ResourceURI
abbrev pub discovery_uri : String
discovery_uri = "/oic/res"

pub data Code : Type 0 where
  get post put delete other : Code

-- A request; the path and the queries are `none` where they cannot be read.
pub record Request : Type 0 where
  pub code : Code
  pub path : Option String
  pub queries : Option (List String)
  pub payload : String

-- What a handler returns: a response, none, or an error.
pub data Result (R : Type 0) : Type 0 where
  replied : R → Result R
  no_reply : Result R
  failed : String → Result R

-- What the manager holds and calls: its handler, getLinks for the types of resources, the building of a
-- response of links and of one for an error, and AddQuery of go-coap.
pub record Parts (R : Type 0) : Type 0 where
  pub device_id : String
  pub handler : Request → Result R
  pub get_links : List String → List ResourceLink
  pub create_content : Request → List ResourceLink → Result R
  pub create_error : String → R
  pub add_query : String → Option (List String) → Option (List String)

abbrev pub filter_of : List String → List String
filter_of [] = []
filter_of (q ∷ qs) =
    let rest = filter_of qs in
    if ltb 3 (len q) && starts_with q "rt=" then slice q 3 (len q) ∷ rest else rest

-- getResourceTypesFilter
unfoldable pub get_resource_types_filter : Option (List String) → List String
get_resource_types_filter none = []
get_resource_types_filter (some queries) = filter_of queries

-- inFilterSupportedCodes
unfoldable pub in_filter_supported_codes : Code → Bool
in_filter_supported_codes Code.other = false
in_filter_supported_codes _ = true

-- The loop of handleDeviceResource: the path that it leaves the request.
unfoldable pub device_path : List ResourceLink → Option String → Option String
device_path [] path = path
device_path (l ∷ ls) path =
    let rest = device_path ls path in if has_type l device_type then some l.href else rest

module _ {R : Type 0} (m : Parts R) where
  -- handleDeviceResource
  unfoldable pub handle_device_resource : Request → Result R
  handle_device_resource r = m.handler (record r { path = device_path (m.get_links []) r.path })

  -- handleDiscoveryResource
  unfoldable pub handle_discovery_resource : Request → Result R
  handle_discovery_resource r =
      let links = m.get_links (get_resource_types_filter r.queries) in
      m.create_content r (patch_links m.device_id (patch_device_link links))

  abbrev pub routed : Option String → Request → Result R
  routed none r = m.handler r
  routed (some p) r =
      if p == device_uri
      then handle_device_resource r
      else if p == discovery_uri
      then handle_discovery_resource r
      else m.handler r

  -- getHandler, and the call of what it returns.
  unfoldable pub call_handler : Request → Result R
  call_handler r = routed r.path r

  abbrev pub response : Result R → Option R
  response (replied resp) = some resp
  response no_reply = none
  response (failed e) = some (m.create_error e)

  abbrev pub with_device : Request → Request
  with_device r = record r { queries = m.add_query (str_append "di=" m.device_id) r.queries }

  -- serveCOAP: the response that it sets, with the token, the ID and the type of the request.
  unfoldable pub serve_coap : Request → Option R
  serve_coap r =
      if not (in_filter_supported_codes r.code)
      then none
      else response (call_handler (with_device r))
