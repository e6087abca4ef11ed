-- ===== src/Credential.antt =====
-- bridge/device/credential/manager.go: the credentials of the device, a map from their IDs. Of a
-- credential the fields stand here that the manager reads or changes; the others it only carries.
pub mod Adding
pub mod Saved
mod Examples
use device.Common.{
  ℕ, zero, suc, ◌+◌, ◌-◌, ◌^◌, String, ◌==◌, Bool, true, false, not, ◌&&◌, ◌||◌, Option, none, some,
  List, [], ◌∷◌, ◌++◌, map, is_some, ltb, eqb, if◌then◌else◌,
}
use device.Common.Keys.{has}
use device.Common.Eq.{ℤ, pos, negsuc, eqz, int_eq}
use device.Common.Dict.{lookup, store, remove}

-- schema/credential: the type is a uint16, the ID an int64.
pub record Credential : Type 0 where
  pub id : ℤ
  pub type : ℕ
  pub subject : String
  pub usage : String
  pub private_data : Option String
  pub public_data : Option String

abbrev pub type_empty : ℕ
type_empty = 0

abbrev pub type_certificate : ℕ
type_certificate = 8

abbrev pub usage_trust_ca : String
usage_trust_ca = "oic.sec.cred.trustca"

abbrev pub usage_mfg_trust_ca : String
usage_mfg_trust_ca = "oic.sec.cred.mfgtrustca"

abbrev pub Credentials : Type 0
Credentials = List (ℤ × Credential)

-- The loop of getNextID; its variable starts at 0 and only grows.
unfoldable pub max_id : ℕ → Credentials → ℕ
max_id id [] = id
max_id id ((pos n, c) ∷ m) = max_id (if ltb id n then n else id) m
max_id id ((negsuc n, c) ∷ m) = max_id id m

-- getNextID; the sum wraps as an int64.
unfoldable pub get_next_id : Credentials → ℤ
get_next_id m = if eqb (max_id 0 m) (2 ^ 63 - 1) then negsuc (2 ^ 63 - 1) else pos (max_id 0 m + 1)

-- add, with as many rounds of its loop as the fuel; `none` is a loop that goes on.
unfoldable pub add_loop : ℕ → Credential → Credentials → Option Credentials
add_loop zero c m = none
add_loop (suc fuel) c m =
    let again = add_loop fuel (record c { id = get_next_id m }) m in
    if is_some (lookup c.id m) then again else some (store c.id c m)

-- Two rounds are enough below the largest ID.
unfoldable pub add : Credential → Credentials → Option Credentials
unfolding add_loop
add c m = add_loop 2 c m

unfoldable pub add_or_replace_credential : Credential → Credentials → Option Credentials
add_or_replace_credential c m =
    if eqb c.type type_empty
    then some m
    else if not (eqz c.id (pos 0))
    then some (store c.id c m)
    else add c m

abbrev or_none : Option Credentials → (Credentials → Option Credentials) → Option Credentials
or_none none f = none
or_none (some m) f = f m

unfoldable pub add_or_replace_credentials : List Credential → Credentials → Option Credentials
add_or_replace_credentials [] m = some m
add_or_replace_credentials (c ∷ cs) m =
    or_none (add_or_replace_credential c m) (λ m'. add_or_replace_credentials cs m')

unfoldable pub remove_credentials : List ℤ → Credentials → Credentials
remove_credentials [] m = m
remove_credentials (id ∷ ids) m = remove_credentials ids (remove id m)

-- RemoveCredentialsBySubjects: every entry whose subject is among them is deleted.
unfoldable pub remove_credentials_by_subjects : List String → Credentials → Credentials
remove_credentials_by_subjects subjects [] = []
remove_credentials_by_subjects subjects ((k, c) ∷ m) =
    let rest = remove_credentials_by_subjects subjects m in
    if has c.subject subjects then rest else (k, c) ∷ rest

unfoldable pub clear_credentials : Credentials → Credentials
clear_credentials m = []

-- getRep: the credentials that it lists.
unfoldable pub get_rep : Bool → Credentials → List Credential
get_rep private_data [] = []
get_rep private_data ((k, c) ∷ m) =
    (if private_data then c else record c { private_data = none }) ∷ get_rep private_data m

-- ExportConfig, and importConfig of New.
unfoldable pub export_config : Credentials → List Credential
export_config m = get_rep true m

unfoldable pub new : List Credential → Option Credentials
new cfg = add_or_replace_credentials cfg []

-- The state after Post, and the credentials in its response, for a body that decodes.
unfoldable pub post : List Credential → Credentials → Option (List Credential × Credentials)
post cs m = elim (add_or_replace_credentials cs m) [
  | none ↦ none
  | some m' ↦ some (get_rep false m', m')
]

-- The credentials that GetCAPool parses.
unfoldable pub is_ca : Credential → Bool
is_ca c =
    eqb c.type type_certificate && (c.usage == usage_trust_ca || c.usage == usage_mfg_trust_ca)

-- GetCAPool; `parse` is ParsePemCertificates, whose failures are passed over.
unfoldable pub get_ca_pool :
    {Cert : Type 0} → (Option String → Option (List Cert)) → Credentials → List Cert
get_ca_pool parse [] = []
get_ca_pool parse ((k, c) ∷ m) =
    let rest = get_ca_pool parse m in
    if is_ca c then (elim (parse c.public_data) [ none ↦ rest | some cas ↦ cas ++ rest ]) else rest
