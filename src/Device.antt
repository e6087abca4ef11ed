-- ===== src/Device.antt =====
-- bridge/device/device.go: the resources of a device, the links to them, and what the cloud manager
-- is told of them. An uuid is its text.
pub mod Links
mod Examples
use Prim.Native.Nat.{bit_and}
use Prim.Native.String.{◌++◌ as str_append}
use device.Common.{
  ℕ, String, ◌==◌, Bool, true, false, not, ◌&&◌, ◌||◌, Option, none, some, List, [], ◌∷◌, ◌++◌, map,
  is_some, is_empty, ltb, eqb, keep, any, if◌then◌else◌,
}
use device.Common.Keys.{has}
use device.Common.Eq.{string_eq}
use device.Common.Dict.{lookup, store, remove}
use device.Schema.Link.{ResourceLink, Endpoint}
use device.Resource.{Resource, publish_to_cloud, close}
use device.Cloud.State.{Manager, publish_resources, unpublish_resources}
use device.Cloud.Connect.{stop}

abbrev pub nil_uuid : String
nil_uuid = "00000000-0000-0000-0000-000000000000"

pub record Device : Type 0 where
  pub id : String
  pub resources : List (String × Resource)
  pub cloud_manager : Option Manager
  pub stopped : Bool
  pub closed_resources : List Resource

unfoldable pub publishes : Resource → Bool
publishes r = not (eqb (bit_and r.policy_bit_mask publish_to_cloud) 0)

-- The loop of AddResources over the map.
unfoldable pub store_all : List Resource → List (String × Resource) → List (String × Resource)
store_all [] m = m
store_all (r ∷ rs) m = store_all rs (store r.href r m)

unfoldable pub hrefs_to_publish : List Resource → List String
hrefs_to_publish rs = map (λ r. r.href) (keep publishes rs)

-- AddResources
unfoldable pub add_resources : List Resource → Device → Device
add_resources rs d = record d {
  resources = store_all rs d.resources;
  cloud_manager = elim d.cloud_manager [
    | none ↦ none
    | some m ↦ some (publish_resources (hrefs_to_publish rs) m)
  ];
}

-- hasResourceTypes
unfoldable pub has_resource_types : List String → List String → Bool
has_resource_types resource_types one_of = any (λ rt. has rt resource_types) one_of

-- The two filters of GetLinksFilteredBy.
unfoldable pub is_listed : List String → ℕ → Resource → Bool
is_listed types mask r =
    (is_empty types || has_resource_types r.resource_types types)
    && (eqb mask 0 || not (eqb (bit_and r.policy_bit_mask mask) 0))

-- `^PublishToCloud` is 0x7f.
unfoldable pub make_link : String → List Endpoint → String → Resource → ResourceLink
make_link device_id endpoints key r = record {
  id = "";
  href = key;
  resource_types = r.resource_types;
  interfaces = r.resource_interfaces;
  policy = some (record {
    bit_mask = bit_and r.policy_bit_mask 0x7f;
    udp_port = 0;
    tcp_port = 0;
    tcp_tls_port = 0;
    secured = none;
  });
  endpoints = endpoints;
  anchor = "";
  device_id = device_id;
  instance_id = 0;
  title = "";
  supported_content_types = [];
}

unfoldable pub links_of :
    String → List Endpoint → List String → ℕ → List (String × Resource) → List ResourceLink
links_of id endpoints types mask [] = []
links_of id endpoints types mask ((key, r) ∷ m) =
    let rest = links_of id endpoints types mask m in
    if is_listed types mask r then make_link id endpoints key r ∷ rest else rest

-- GetLinksFilteredBy
unfoldable pub get_links_filtered_by :
    List Endpoint → String → List String → ℕ → Device → List ResourceLink
get_links_filtered_by endpoints di types mask d =
    if not (di == nil_uuid) && not (di == d.id)
    then []
    else links_of d.id endpoints types mask d.resources

-- LoadAndDeleteResource
unfoldable pub load_and_delete_resource : String → Device → Option Resource × Device
load_and_delete_resource href d =
    (lookup href d.resources, record d { resources = remove href d.resources })

abbrev unpublish_if : Bool → String → Option Manager → Option Manager
unpublish_if b href none = none
unpublish_if b href (some m) = some (if b then unpublish_resources (href ∷ []) m else m)

abbrev closed_and_deleted : String → Option Resource × Device → Bool × Device
closed_and_deleted href (none, d) = (false, d)
closed_and_deleted href (some r, d) = (
  true,
  record d {
    closed_resources = d.closed_resources ++ close r ∷ [];
    cloud_manager = unpublish_if (publishes r) href d.cloud_manager;
  },
)

-- CloseAndDeleteResource
unfoldable pub close_and_delete_resource : String → Device → Bool × Device
unfolding load_and_delete_resource
close_and_delete_resource href d = closed_and_deleted href (load_and_delete_resource href d)

-- HandleRequest: the resource that answers, or none for a response of code NotFound.
unfoldable pub route : String → Device → Option Resource
route uri d = lookup uri d.resources

abbrev close_all : List (String × Resource) → List Resource
close_all [] = []
close_all ((k, r) ∷ m) = close r ∷ close_all m

-- Close
unfoldable pub close_device : Device → Device
close_device d = if d.stopped then d else record d {
  stopped = true;
  cloud_manager = elim d.cloud_manager [ none ↦ none | some m ↦ some (stop m) ];
  resources = [];
  closed_resources = d.closed_resources ++ close_all d.resources;
}

-- discovery.PatchLinks of bridge/resources/discovery/resource.go: the loop sets the anchor of its own
-- copy of each link.
unfoldable pub patch_links : String → List ResourceLink → List ResourceLink
patch_links device_id [] = []
patch_links device_id (l ∷ ls) =
    let copy = record l { anchor = str_append "ocf://" device_id } in l ∷ patch_links device_id ls
