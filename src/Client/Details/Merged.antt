-- ===== src/Client/Details/Merged.antt =====
-- What GetDevicesDetails of client/getDevices.go returns for each device.
use device.Common.{
  ℕ, String, ◌==◌, eq_iff, ◌≡◌, refl, sym, ap, ◌∙◌, ◌||◌, Option, none, some, List, [], ◌∷◌,
  is_some, any, arith, if◌then◌else◌, Bool-cases, Option-cases, inl, inr,
}
use device.Common.Eq.{string_eq}
use device.Common.Dict.{lookup, store, lookup-store}
use device.Schema.Link.{Endpoint}
use device.Client.Details.{
  DeviceDetails, Ownership, described, status, or_old, with_ownership, set_one, set_ownership,
  merged, merge_devices,
}

abbrev pub details_of : Option DeviceDetails → Option ℕ
details_of none = none
details_of (some d) = d.details

-- The details that were found last of a device, from those known before.
abbrev pub last_details : String → List DeviceDetails → Option ℕ → Option ℕ
last_details id [] old = old
last_details id (i ∷ found) old =
    last_details id found (if i.id == id then or_old i.details old else old)

with_ownership-details :
    (owner_id : String) (o : Ownership) (d : DeviceDetails)
    → (with_ownership owner_id o d).details ≡ d.details
with_ownership-details owner_id (described id) d = refl
with_ownership-details owner_id (status s) d = refl

-- Devices and details stay when one device is replaced by another with its details.
same_after_store :
    (id id' : String) (d e : DeviceDetails) (m : List (String × DeviceDetails))
    → lookup id' m ≡ some d
    → e.details ≡ d.details
    → (is_some (lookup id (store id' e m)) ≡ is_some (lookup id m))
      × (details_of (lookup id (store id' e m)) ≡ details_of (lookup id m))
same_after_store id id' d e m l x = elim (Bool-cases (id' == id)) [
  | inr f ↦
      let s : lookup id (store id' e m) ≡ lookup id m = lookup-store id' id e m ∙ rw f refl in
      (ap is_some s, ap details_of s)
  | inl t ↦
      let s : lookup id (store id' e m) ≡ some e = lookup-store id' id e m ∙ rw t refl in
      let old : lookup id m ≡ some d = sym (ap (λ k. lookup k m) ((eq_iff id' id).0 t)) ∙ l in
      (ap is_some s ∙ sym (ap is_some old), ap details_of s ∙ (x ∙ sym (ap details_of old)))
]

set_one-keeps :
    (owner_id id id' : String) (o : Ownership) (x : Option DeviceDetails)
    → (m : List (String × DeviceDetails)) → lookup id' m ≡ x
    → (is_some (lookup id (set_one owner_id id' o x m)) ≡ is_some (lookup id m))
      × (details_of (lookup id (set_one owner_id id' o x m)) ≡ details_of (lookup id m))
set_one-keeps owner_id id id' o none m l = (refl, refl)
set_one-keeps owner_id id id' o (some d) m l = elim (Bool-cases (is_some d.ownership)) [
  | inl t ↦ rw t (refl, refl)
  | inr f ↦ rw f (
      same_after_store id id' d (with_ownership owner_id o d) m l
        (with_ownership-details owner_id o d))
]

set_ownership-keeps :
    (owner_id id : String) (os : List (String × Ownership)) (m : List (String × DeviceDetails))
    → (is_some (lookup id (set_ownership owner_id m os)) ≡ is_some (lookup id m))
      × (details_of (lookup id (set_ownership owner_id m os)) ≡ details_of (lookup id m))
unfolding set_ownership
set_ownership-keeps owner_id id [] m = (refl, refl)
set_ownership-keeps owner_id id ((j, o) ∷ os) m =
    let rest = set_ownership-keeps owner_id id os (set_one owner_id j o (lookup j m) m) in
    let first = set_one-keeps owner_id id j o (lookup j m) m refl in
    (rest.0 ∙ first.0, rest.1 ∙ first.1)

module _ (sort : List Endpoint → List Endpoint) where
  merged-details :
      (i : DeviceDetails) (x : Option DeviceDetails)
      → (merged sort i x).details ≡ or_old i.details (details_of x)
  merged-details i none = elim (Option-cases i.details) [
    | inl n ↦ rw n refl
    | inr (v, n) ↦ rw n refl
  ]
  merged-details i (some d) = refl

  merge_one :
      (id : String) (i : DeviceDetails) (m : List (String × DeviceDetails))
      → (is_some (lookup id (store i.id (merged sort i (lookup i.id m)) m))
          ≡ (is_some (lookup id m) || (i.id == id)))
        × (details_of (lookup id (store i.id (merged sort i (lookup i.id m)) m)) ≡ (
            if i.id == id
            then or_old i.details (details_of (lookup id m))
            else details_of (lookup id m)))
  merge_one id i m =
      let e = merged sort i (lookup i.id m) in
      elim (Bool-cases (i.id == id)) [
        | inr f ↦
            let s : lookup id (store i.id e m) ≡ lookup id m =
              lookup-store i.id id e m ∙ rw f refl in
            (ap is_some s ∙ ground (arith, f), ap details_of s ∙ rw f refl)
        | inl t ↦
            let s : lookup id (store i.id e m) ≡ some e = lookup-store i.id id e m ∙ rw t refl in
            let same : lookup i.id m ≡ lookup id m = ap (λ k. lookup k m) ((eq_iff i.id id).0 t) in
            (
              ap is_some s ∙ ground (arith, t),
              ap details_of s
                  ∙ (merged-details i (lookup i.id m)
                      ∙ (ap (λ x. or_old i.details (details_of x)) same ∙ rw t refl)),
            )
      ]

  merge_devices-keeps :
      (id : String) (found : List DeviceDetails) (m : List (String × DeviceDetails))
      → (is_some (lookup id (merge_devices sort found m))
          ≡ (is_some (lookup id m) || any (λ i. i.id == id) found))
        × (details_of (lookup id (merge_devices sort found m))
            ≡ last_details id found (details_of (lookup id m)))
  unfolding merge_devices
  merge_devices-keeps id [] m = (ground arith, refl)
  merge_devices-keeps id (i ∷ found) m =
      let first = merge_one id i m in
      let rest = merge_devices-keeps id found (store i.id (merged sort i (lookup i.id m)) m) in
      (ground (arith, rest.0, first.0), rest.1 ∙ ap (λ o. last_details id found o) first.1)

  -- GetDevicesDetails returns just the devices that were found, each with the details that were found last
  -- of it: neither a device that is found again without details, nor what is known of the owners, takes
  -- them away.
  pub get_devices_details_lem :
      (owner_id id : String) (found : List DeviceDetails) (owns : List (String × Ownership))
      → (is_some (lookup id (set_ownership owner_id (merge_devices sort found []) owns))
          ≡ any (λ i. i.id == id) found)
        × (details_of (lookup id (set_ownership owner_id (merge_devices sort found []) owns))
            ≡ last_details id found none)
  unfolding lookup
  get_devices_details_lem owner_id id found owns =
      let o = set_ownership-keeps owner_id id owns (merge_devices sort found []) in
      let m = merge_devices-keeps id found [] in (o.0 ∙ m.0, o.1 ∙ m.1)
