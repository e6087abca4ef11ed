-- ===== src/Credential/Saved.antt =====
-- What the credential manager of bridge/device/credential saves and reads back.
use device.Common.{
  ℕ, zero, suc, ◌≡◌, refl, subst, sym, true, false, none, some, List, [], ◌∷◌, is_some, eqb,
  if◌then◌else◌, arith, Bool-cases, Option-cases, inl, inr,
}
use mathlib.Core.Option.{some-injective}
use device.Common.Eq.{ℤ, pos, eqz, eqz_iff, int_eq}
use device.Common.Dict.{lookup, store, lookup-store, Distinct}
use device.Credential.{
  Credential, Credentials, type_empty, get_next_id, add_loop, add, add_or_replace_credential,
  add_or_replace_credentials, get_rep, export_config, new,
}

-- Each credential stands under its own ID, and none is of the empty type.
abbrev pub WellFormed : Credentials → Type 0
WellFormed [] = Unit
WellFormed ((k, c) ∷ m) = (c.id ≡ k) × (eqb c.type type_empty ≡ false) × WellFormed m

store-WellFormed :
    (c : Credential) (m : Credentials)
    → eqb c.type type_empty ≡ false
    → WellFormed m
    → WellFormed (store c.id c m)
unfolding store
store-WellFormed c [] t w = (refl, t, tt)
store-WellFormed c ((k, d) ∷ m) t w = ground (arith, eqz_iff k c.id, store-WellFormed c m t w.2)

add_loop-WellFormed :
    (fuel : ℕ) (c : Credential) (m : Credentials) {m' : Credentials}
    → eqb c.type type_empty ≡ false
    → WellFormed m
    → add_loop fuel c m ≡ some m'
    → WellFormed m'
unfolding add_loop
add_loop-WellFormed zero c m t w e = cc
add_loop-WellFormed (suc fuel) c m t w e = elim (Bool-cases (is_some (lookup c.id m))) [
  | inl taken ↦ add_loop-WellFormed fuel (record c { id = get_next_id m }) m t w (ground arith)
  | inr free ↦ subst WellFormed (some-injective _ _ (ground arith)) (store-WellFormed c m t w)
]

add_or_replace_credential-WellFormed :
    (c : Credential) (m : Credentials) {m' : Credentials}
    → WellFormed m
    → add_or_replace_credential c m ≡ some m'
    → WellFormed m'
unfolding add_or_replace_credential add
add_or_replace_credential-WellFormed c m w e = elim (Bool-cases (eqb c.type type_empty)) [
  | inl t ↦ subst WellFormed (some-injective _ _ (ground arith)) w
  | inr t ↦ elim (Bool-cases (eqz c.id (pos 0))) [
    | inl z ↦ add_loop-WellFormed 2 c m t w (ground arith)
    | inr z ↦ subst WellFormed (some-injective _ _ (ground arith)) (store-WellFormed c m t w)
  ]
]

-- Whatever credentials are added, each stays under its own ID, and none has the empty type.
add_or_replace_credentials-WellFormed :
    (cs : List Credential) (m : Credentials) {m' : Credentials}
    → WellFormed m
    → add_or_replace_credentials cs m ≡ some m'
    → WellFormed m'
unfolding add_or_replace_credentials
add_or_replace_credentials-WellFormed [] m w e = subst WellFormed (some-injective _ _ e) w
add_or_replace_credentials-WellFormed (c ∷ cs) m w e =
    elim (Option-cases (add_or_replace_credential c m)) [
      | inl n ↦ cc n
      | inr (m1, n) ↦
          add_or_replace_credentials-WellFormed cs m1 (add_or_replace_credential-WellFormed c m w n)
            (ground arith)
    ]

-- The keys of the first map are not in the second.
abbrev Apart : Credentials → Credentials → Type 0
Apart [] acc = Unit
Apart ((k, c) ∷ m) acc = (lookup k acc ≡ none) × Apart m acc

Apart-store :
    (k : ℤ) (c : Credential) (m acc : Credentials)
    → lookup k m ≡ none
    → Apart m acc
    → Apart m (store k c acc)
unfolding lookup
Apart-store k c [] acc n a = tt
Apart-store k c ((i, d) ∷ m) acc n a = (
  ground (arith, lookup-store k i c acc, eqz_iff i k, eqz_iff k i),
  Apart-store k c m acc (ground arith) a.1,
)

Apart-nil : (m : Credentials) → Apart m []
unfolding lookup
Apart-nil [] = tt
Apart-nil ((k, c) ∷ m) = (refl, Apart-nil m)

-- A well-formed credential under a free ID is stored there.
import_one :
    (c : Credential) (acc : Credentials)
    → eqb c.type type_empty ≡ false
    → lookup c.id acc ≡ none
    → add_or_replace_credential c acc ≡ some (store c.id c acc)
unfolding add_or_replace_credential add
import_one c acc t n = ground arith

import_all :
    (m acc : Credentials) (k : ℤ)
    → Distinct m
    → WellFormed m
    → Apart m acc
    → (out : Credentials) × (add_or_replace_credentials (get_rep true m) acc ≡ some out)
      × (lookup k out ≡ (if is_some (lookup k m) then lookup k m else lookup k acc))
unfolding add_or_replace_credentials get_rep lookup
import_all [] acc k d w a = (acc, refl, refl)
import_all ((i, c) ∷ m) acc k d w a =
    let free = subst (λ t. lookup t acc ≡ none) (sym w.0) a.0 in
    let new_key = subst (λ t. lookup t m ≡ none) (sym w.0) d.0 in
    let acc' = store c.id c acc in
    let (out, stored, found) = import_all m acc' k d.1 w.2 (Apart-store c.id c m acc new_key a.1) in
    (
      out,
      rw (import_one c acc w.1 free) stored,
      ground (arith, found, lookup-store c.id k c acc, w.0, eqz_iff i k, d.0),
    )

-- What ExportConfig saves of a well-formed set of credentials, New reads back as it was.
pub new-export_config :
    (m : Credentials) (k : ℤ)
    → Distinct m
    → WellFormed m
    → (out : Credentials) × (new (export_config m) ≡ some out) × (lookup k out ≡ lookup k m)
unfolding new export_config lookup
new-export_config m k d w =
    let (out, stored, found) = import_all m [] k d w (Apart-nil m) in
    (out, stored, ground (arith, found))
