-- ===== src/Device/Links.antt =====
-- Which resources of bridge/device/device.go are listed, and what adding and deleting one tells the
-- cloud manager.
use device.Common.{
  ℕ, String, ◌==◌, ◌≡◌, refl, ap, sym, subst, Bool, true, false, not, ◌&&◌, ◌||◌, Option, none,
  some, List, [], ◌∷◌, any, All, arith, eq_iff, Bool-cases, Option-cases, if◌then◌else◌, inl, inr,
}
use device.Common.Keys.{has}
use device.Common.Eq.{string_eq}
use device.Common.Dict.{lookup, remove, lookup-remove, Distinct, remove-Distinct}
use device.Schema.Link.{ResourceLink, Endpoint}
use device.Resource.{Resource}
use device.Cloud.State.{Manager, publish_resources, unpublish_resources}
use device.Cloud.Publish.{hrefs}
use device.Cloud.Ready.{publish_resources-has, unpublish_resources-has}
use device.Device.{
  Device, nil_uuid, publishes, hrefs_to_publish, add_resources, is_listed, make_link, links_of,
  get_links_filtered_by, close_and_delete_resource, patch_links,
}

abbrev pub listed : List String → ℕ → Option Resource → Bool
listed types mask none = false
listed types mask (some r) = is_listed types mask r

links_of-hrefs :
    (id : String) (eps : List Endpoint) (types : List String) (mask : ℕ)
    (m : List (String × Resource)) (k : String)
    → Distinct m
    → has k (hrefs (links_of id eps types mask m)) ≡ listed types mask (lookup k m)
unfolding links_of lookup make_link
links_of-hrefs id eps types mask [] k d = refl
links_of-hrefs id eps types mask ((i, r) ∷ m) k d =
    ground (arith, eq_iff i k, links_of-hrefs id eps types mask m k d.1, ap (listed types mask) d.0)

-- GetLinksFilteredBy lists nothing for another device's ID, and otherwise exactly the hrefs of the
-- resources that pass the filters.
get_links_filtered_by-hrefs :
    (eps : List Endpoint) (di : String) (types : List String) (mask : ℕ) (d : Device) (k : String)
    → Distinct d.resources
    → has k (hrefs (get_links_filtered_by eps di types mask d))
      ≡ (((di == nil_uuid) || (di == d.id)) && listed types mask (lookup k d.resources))
unfolding get_links_filtered_by
get_links_filtered_by-hrefs eps di types mask d k u =
    ground (arith, links_of-hrefs d.id eps types mask d.resources k u)

hrefs_to_publish-has :
    (rs : List Resource) (k : String)
    → has k (hrefs_to_publish rs) ≡ any (λ r. publishes r && r.href == k) rs
unfolding hrefs_to_publish
hrefs_to_publish-has [] k = refl
hrefs_to_publish-has (r ∷ rs) k = ground (arith, hrefs_to_publish-has rs k)

-- Where a device has a cloud manager, a resource that is added to it with the PublishToCloud bit waits
-- to be published afterwards, and is not waiting to be unpublished.
pub add_resources-publishes :
    (rs : List Resource) (d : Device) (m : Manager) (k : String)
    → d.cloud_manager ≡ some m
    → any (λ r. publishes r && r.href == k) rs ≡ true
    → (m' : Manager) × ((add_resources rs d).cloud_manager ≡ some m')
      × (has k m'.ready_to_publish ≡ true)
      × (has k m'.ready_to_unpublish ≡ false)
unfolding add_resources
add_resources-publishes rs d m k e h =
    let sets = publish_resources-has (hrefs_to_publish rs) m k in
    let marked = hrefs_to_publish-has rs k in
    (
      publish_resources (hrefs_to_publish rs) m,
      ground (arith, e),
      ground (arith, sets, marked),
      ground (arith, sets, marked),
    )

close_and_delete-resources :
    (d : Device) (k : String) → (close_and_delete_resource k d).1.resources ≡ remove k d.resources
unfolding close_and_delete_resource
close_and_delete-resources d k = ground arith

close_and_delete-hrefs :
    (d : Device) (k : String) (eps : List Endpoint) (di : String) (types : List String) (mask : ℕ)
    → Distinct d.resources
    → has k (hrefs (get_links_filtered_by eps di types mask (close_and_delete_resource k d).1))
      ≡ false
close_and_delete-hrefs d k eps di types mask u =
    let d' = (close_and_delete_resource k d).1 in
    let e = close_and_delete-resources d k in
    ground (
      arith,
      get_links_filtered_by-hrefs eps di types mask d' k
          (subst (λ t. Distinct t) (sym e) (remove-Distinct k d.resources u)),
      ap (λ t. listed types mask (lookup k t)) e,
      ap (listed types mask) (lookup-remove k k d.resources),
      eq_iff k k,
    )

-- Whether an href waits to be unpublished and to be published, where there is a cloud manager.
abbrev pub waiting : String → Option Manager → Option (Bool × Bool)
waiting k none = none
waiting k (some m) = some (has k m.ready_to_unpublish, has k m.ready_to_publish)

abbrev pub withdrawn : Bool → Option (Bool × Bool) → Option (Bool × Bool)
withdrawn published none = none
withdrawn published (some w) = some (if published then (true, false) else w)

unpublish_resources-waiting :
    (k : String) (m : Manager)
    → waiting k (some (unpublish_resources (k ∷ []) m)) ≡ some (true, false)
unpublish_resources-waiting k m = ground (arith, unpublish_resources-has (k ∷ []) m k, eq_iff k k)

close_and_delete-waiting :
    (d : Device) (r : Resource) (k : String)
    → lookup k d.resources ≡ some r
    → waiting k (close_and_delete_resource k d).1.cloud_manager
      ≡ withdrawn (publishes r) (waiting k d.cloud_manager)
unfolding close_and_delete_resource
close_and_delete-waiting d r k l = elim (Option-cases d.cloud_manager) [
  | inl c ↦ simp (l, c) (ground (arith, c))
  | inr (m, c) ↦ simp (l, c) (ground (arith, c, unpublish_resources-waiting k m))
]

-- A resource that is closed and deleted is listed no more, whatever the filters. If it was published and
-- the device has a cloud manager, its href waits to be unpublished and is not waiting to be published;
-- if it was not published, what the manager has waiting of its href is as before.
pub close_and_delete_resource_lem :
    (d : Device) (r : Resource) (k : String) (eps : List Endpoint) (di : String)
    (types : List String) (mask : ℕ)
    → Distinct d.resources
    → lookup k d.resources ≡ some r
    → (has k (hrefs (get_links_filtered_by eps di types mask (close_and_delete_resource k d).1))
        ≡ false)
      × (waiting k (close_and_delete_resource k d).1.cloud_manager
          ≡ withdrawn (publishes r) (waiting k d.cloud_manager))
close_and_delete_resource_lem d r k eps di types mask u l =
    (close_and_delete-hrefs d k eps di types mask u, close_and_delete-waiting d r k l)

abbrev pub NoAnchor : ResourceLink → Type 0
NoAnchor l = l.anchor ≡ ""

links_of-anchors :
    (id : String) (eps : List Endpoint) (types : List String) (mask : ℕ)
    (m : List (String × Resource))
    → All NoAnchor (links_of id eps types mask m)
unfolding links_of make_link
links_of-anchors id eps types mask [] = tt
links_of-anchors id eps types mask ((k, r) ∷ m) = elim (Bool-cases (is_listed types mask r)) [
  | inl e ↦ rw e (refl, links_of-anchors id eps types mask m)
  | inr e ↦ rw e (links_of-anchors id eps types mask m)
]

patch_links-All :
    (id : String) (ls : List ResourceLink) → All NoAnchor ls → All NoAnchor (patch_links id ls)
unfolding patch_links
patch_links-All id [] h = tt
patch_links-All id (l ∷ ls) h = (h.0, patch_links-All id ls h.1)

-- The anchors of the links that discovery makes of a device's links are empty: patching them with the
-- device's ID changes nothing.
patch_links-anchors :
    (id : String) (eps : List Endpoint) (di : String) (types : List String) (mask : ℕ) (d : Device)
    → All NoAnchor (patch_links id (get_links_filtered_by eps di types mask d))
unfolding get_links_filtered_by
patch_links-anchors id eps di types mask d =
    elim (Bool-cases (not (di == nil_uuid) && not (di == d.id))) [
      | inl e ↦ rw e (patch_links-All id [] tt)
      | inr e ↦ rw e (patch_links-All id _ (links_of-anchors d.id eps types mask d.resources))
    ]
