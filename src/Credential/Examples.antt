-- ===== src/Credential/Examples.antt =====
-- The theorems on bridge/device/credential/manager.go at concrete credentials.
use device.Common.{ℕ, String, ◌≡◌, refl, none, some, [], ◌∷◌, arith, if◌then◌else◌}
use device.Common.Eq.{ℤ, pos, eqz, int_eq}
use device.Common.Dict.{lookup}
use device.Credential.{get_next_id, Credential, Credentials, max_id, add, export_config, new}
use device.Credential.Adding.{add_lem}
use device.Credential.Saved.{new-export_config}

abbrev certificate : ℕ → String → Credential
certificate n subject = record {
  id = pos n;
  type = 8;
  subject = subject;
  usage = "oic.sec.cred.trustca";
  private_data = none;
  public_data = none;
}

abbrev two : Credentials
two = (pos 1, certificate 1 "a") ∷ (pos 4, certificate 4 "b") ∷ []

add_lem_example :
    (m' : Credentials) × (add (certificate 4 "c") two ≡ some m')
    × (lookup (pos 5) two ≡ none)
    × ((k : ℤ) → lookup k m' ≡ (if eqz (pos 5) k then some (certificate 5 "c") else lookup k two))
unfolding max_id get_next_id lookup
add_lem_example = add_lem (certificate 4 "c") two (omega arith)

new-export_config_example :
    (out : Credentials) × (new (export_config two) ≡ some out)
    × (lookup (pos 4) out ≡ lookup (pos 4) two)
unfolding lookup
new-export_config_example =
    new-export_config two (pos 4) (refl, (refl, tt)) (refl, refl, (refl, refl, tt))
