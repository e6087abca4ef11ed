-- ===== src/Resource.antt =====
-- bridge/resources/resource.go and etag.go: a resource of the bridge, its observers and its ETag.
-- The handlers are functions of the program that uses the resource; here they are what they return.
pub mod Bits
pub mod Observers
mod Examples
use Prim.Native.Nat.{bit_and, bit_or}
use device.Common.{
  ℕ, zero, suc, ◌+◌, ◌-◌, ◌*◌, ◌%◌, ◌/◌, ◌^◌, String, ◌==◌, Bool, true, false, not, ◌&&◌, ◌||◌,
  Option, none, some, List, [], ◌∷◌, ◌++◌, map, is_some, ltb, eqb, if◌then◌else◌,
}
use device.Common.Keys.{has}
use device.Common.Eq.{string_eq}
use device.Common.Dict.{lookup, store, remove}
use device.Schema.Link.{discoverable, observable}

-- const PublishToCloud schema.BitMask = 1 << 7
abbrev pub publish_to_cloud : ℕ
publish_to_cloud = 128

-- A subscription is the number of its cancel function; `cancelled` records the calls of these, and
-- `created` the subscriptions that createSubscription made.
pub record Resource : Type 0 where
  pub href : String
  pub resource_interfaces : List String
  pub policy_bit_mask : ℕ  -- uint8
  pub has_get : Bool
  pub has_post : Bool
  pub has_create_subscription : Bool
  pub has_loop : Bool
  pub closed : Bool
  pub subscriptions : List (String × ℕ)
  pub created : List ℕ
  pub cancelled : List ℕ
  pub etag : ℕ  -- uint64
  pub resource_types : List String

-- Unique: `list` grows at its end, `all_keys` holds what is in it.
unfoldable pub unique_from : List String → List String → List String
unique_from [] list = list
unique_from (s ∷ ss) list = unique_from ss (if has s list then list else list ++ s ∷ [])

unfoldable pub unique : List String → List String
unfolding unique_from
unique ss = unique_from ss []

abbrev pub operation_read : ℕ
operation_read = 1

abbrev pub operation_write : ℕ
operation_write = 2

abbrev pub operation_observe : ℕ
operation_observe = 4

unfoldable pub has_operation : ℕ → ℕ → Bool
has_operation o operation = not (eqb (bit_and o operation) 0)

-- SupportsOperations
unfoldable pub supports_operations : Resource → ℕ
supports_operations r =
    let o = if r.has_get then bit_or 0 operation_read else 0 in
    let o' = if r.has_post then bit_or o operation_write else o in
    if not (eqb (bit_and r.policy_bit_mask observable) 0) then bit_or o' operation_observe else o'

-- SetObserveHandler; `&^` with 2 keeps the bits of 0xfd.
unfoldable pub set_observe_handler : Bool → Resource → Resource
set_observe_handler true r = record r {
  has_loop = true;
  has_create_subscription = true;
  policy_bit_mask = bit_or r.policy_bit_mask observable;
}
set_observe_handler false r = record r {
  has_loop = false;
  has_create_subscription = false;
  policy_bit_mask = bit_and r.policy_bit_mask 0xfd;
}

-- NewResource, with the ETag that GetETag returns.
unfoldable pub new_resource : String → Bool → Bool → List String → List String → ℕ → Resource
new_resource href has_get has_post resource_types resource_interfaces etag = record {
  href = href;
  resource_interfaces = unique resource_interfaces;
  policy_bit_mask = bit_or discoverable publish_to_cloud;
  has_get = has_get;
  has_post = has_post;
  has_create_subscription = false;
  has_loop = false;
  closed = false;
  subscriptions = [];
  created = [];
  cancelled = [];
  etag = etag;
  resource_types = unique resource_types;
}

abbrev values : List (String × ℕ) → List ℕ
values [] = []
values ((k, n) ∷ m) = n ∷ values m

-- Close: the subscriptions are cancelled and stay in the map.
unfoldable pub close : Resource → Resource
close r =
    if r.closed
    then r
    else record r { closed = true; cancelled = r.cancelled ++ values r.subscriptions }

-- removeSubscription
unfoldable pub remove_subscription : String → Resource → Resource
remove_subscription key r = elim (lookup key r.subscriptions) [
  | none ↦ r
  | some n ↦ record r {
    subscriptions = remove key r.subscriptions;
    cancelled = r.cancelled ++ n ∷ [];
  }
]

pub data Code : Type 0 where
  get post other : Code

-- A request: its code, its observe option if it has one, and the address it comes from.
pub record Request : Type 0 where
  pub code : Code
  pub observe : Option ℕ
  pub remote : String

-- `handled true` is a response of code Content; an error is what a handler returned.
pub data Response : Type 0 where
  handled : Bool → Response
  with_etag : ℕ → Response
  handler_error : Response
  bad_request internal_error method_not_allowed : Response

-- What the handlers do with one request: the cancel function of createSubscription, if it does not
-- fail, and whether the get handler succeeds, and with the code Content.
pub record Handlers : Type 0 where
  pub subscribed : Option ℕ
  pub got : Option Bool
  pub posted : Option Bool

abbrev from_handler : Option Bool → Response
from_handler none = handler_error
from_handler (some content) = handled content

-- Map.Replace, with the cancellation of the subscription that was there.
unfoldable pub replace_subscription : String → ℕ → Resource → Resource
replace_subscription key n r = record r {
  subscriptions = store key n r.subscriptions;
  cancelled = elim (lookup key r.subscriptions) [
    | none ↦ r.cancelled
    | some old ↦ r.cancelled ++ old ∷ []
  ];
}

abbrev observe_got : Option Bool → String → ℕ → Resource → Response × Resource
observe_got none key n r = (handler_error, record r { cancelled = r.cancelled ++ n ∷ [] })
observe_got (some content) key n r = (handled content, replace_subscription key n r)

abbrev observe_subscribed : Option ℕ → Option Bool → String → Resource → Response × Resource
observe_subscribed none got key r = (bad_request, r)
observe_subscribed (some n) got key r =
    observe_got got key n (record r { created = r.created ++ n ∷ [] })

-- observerHandler
unfoldable pub observer_handler : Handlers → Request → Bool → Resource → Response × Resource
observer_handler h req create r =
    if not r.has_loop
    then (internal_error, r)
    else if create
    then observe_subscribed h.subscribed h.got req.remote r
    else (from_handler h.got, remove_subscription req.remote r)

-- The ETag that HandleRequest adds to a response of code Content.
abbrev add_etag : Response × Resource → Response × Resource
add_etag (handled true, r) = (if eqb r.etag 0 then handled true else with_etag r.etag, r)
add_etag (x, r) = (x, r)

abbrev is_get : Code → Bool
is_get get = true
is_get _ = false

abbrev is_post : Code → Bool
is_post post = true
is_post _ = false

abbrev get_response : Handlers → Request → Option ℕ → Resource → Response × Resource
get_response h req none r = (from_handler h.got, r)
get_response h req (some obs) r =
    if r.has_create_subscription && not (eqb (bit_and r.policy_bit_mask observable) 0)
    then observer_handler h req (eqb obs 0) r
    else (from_handler h.got, r)

-- HandleRequest
unfoldable pub handle_request : Handlers → Request → Resource → Response × Resource
handle_request h req r =
    if is_get req.code && r.has_get
    then add_etag (get_response h req req.observe r)
    else if is_post req.code && r.has_post
    then (from_handler h.posted, r)
    else (method_not_allowed, r)

-- generateNextETag, from four random bytes.
unfoldable pub generate_next_etag : ℕ → ℕ → ℕ
generate_next_etag current random = (current + random % 1000) % 2 ^ 64

-- GetETag where no other thread swaps the counter in between: the new value of globalETag.
unfoldable pub get_etag : ℕ → ℕ → ℕ → ℕ
get_etag now random old = generate_next_etag (if ltb old now then now else old) random

-- UpdateETag
unfoldable pub update_etag : ℕ → Resource → Resource
update_etag etag r = record r { etag = etag }
