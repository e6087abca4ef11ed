-- ===== src/Credential/Adding.antt =====
-- Adding and removing credentials in bridge/device/credential/manager.go.
use device.Common.{
  ℕ, ◌+◌, ◌-◌, ◌^◌, ◌≤◌, ◌<◌, String, ◌≡◌, refl, none, some, List, [], ◌∷◌, is_some, ltb,
  if◌then◌else◌, arith, Bool-cases, inl, inr,
}
use device.Common.Keys.{has}
use device.Common.Eq.{ℤ, pos, negsuc, eqz, eqz_iff, int_eq}
use device.Common.Dict.{lookup, store, lookup-store, Distinct}
use device.Credential.{
  Credential, Credentials, max_id, get_next_id, add, remove_credentials_by_subjects,
}

max_id-le : (id : ℕ) (m : Credentials) → id ≤ max_id id m
unfolding max_id
max_id-le id [] = omega arith
max_id-le id ((pos n, c) ∷ m) = ground (arith, max_id-le (if ltb id n then n else id) m)
max_id-le id ((negsuc n, c) ∷ m) = max_id-le id m

-- No key is above the largest.
lookup_above : (n id : ℕ) (m : Credentials) → max_id id m < n → lookup (pos n) m ≡ none
unfolding max_id lookup
lookup_above n id [] h = refl
lookup_above n id ((pos k, c) ∷ m) h =
    ground (
      arith,
      lookup_above n (if ltb id k then k else id) m,
      max_id-le (if ltb id k then k else id) m,
    )
lookup_above n id ((negsuc k, c) ∷ m) h = lookup_above n id m h

next_id_free : (m : Credentials) → max_id 0 m < 2 ^ 63 - 1 → lookup (get_next_id m) m ≡ none
unfolding get_next_id
next_id_free m h = ground (arith, lookup_above (max_id 0 m + 1) 0 m)

-- The ID under which a credential is to be stored: its own or, where that is taken, the next one.
abbrev pub id_for : Credential → Credentials → ℤ
id_for c m = if is_some (lookup c.id m) then get_next_id m else c.id

-- A credential is added with its own ID or, where that is taken, with the one of getNextID; this ID was
-- free, and no other credential changes. So it is as long as the largest ID is below that of an int64.
pub add_lem :
    (c : Credential) (m : Credentials)
    → max_id 0 m < 2 ^ 63 - 1
    → (m' : Credentials) × (add c m ≡ some m')
      × (lookup (id_for c m) m ≡ none)
      × ((k : ℤ)
          → lookup k m'
            ≡ (if eqz (id_for c m) k then some (record c { id = id_for c m }) else lookup k m))
unfolding add
add_lem c m h = elim (Bool-cases (is_some (lookup c.id m))) [
  | inl taken ↦
      let id = get_next_id m in
      rw taken (
        store id (record c { id = id }) m,
        ground (arith, taken, next_id_free m h),
        next_id_free m h,
        λ k. lookup-store id k (record c { id = id }) m,
      )
  | inr free ↦
      rw free
        (store c.id c m, ground (arith, free), ground (arith, free), λ k. lookup-store c.id k c m)
]

-- RemoveCredentialsBySubjects removes exactly the credentials of the given subjects.
remove_credentials_by_subjects_lem :
    (subjects : List String) (m : Credentials) (k : ℤ)
    → Distinct m
    → lookup k (remove_credentials_by_subjects subjects m)
      ≡ elim (lookup k m) [ none ↦ none | some c ↦ if has c.subject subjects then none else some c ]
unfolding remove_credentials_by_subjects lookup
remove_credentials_by_subjects_lem subjects [] k d = refl
remove_credentials_by_subjects_lem subjects ((i, c) ∷ m) k d =
    ground (arith, remove_credentials_by_subjects_lem subjects m k d.1, eqz_iff i k)
