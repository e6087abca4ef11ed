-- ===== src/Certificate/Examples.antt =====
-- The theorem on pkg/net/coap/verify.go, on a concrete certificate.
use device.Common.{any, eqb, is_some, ◌==◌, ◌≡◌, ◌↔◌, true, ◌&&◌, some, [], ◌∷◌, if◌then◌else◌}
use device.Certificate.{
  Certificate, Texts, server_auth, client_auth, identity_usage, get_uuid_from_subject_common_name,
  get_device_id_from_identity_certificate, verify_identity_certificate, verify_cloud_certificate,
}
use device.Certificate.Accepted.{for_both, for_identity, verify_lem}

abbrev texts : Texts
texts = record {
  split = λ s. if s == "uuid:1" then "uuid" ∷ "1" ∷ [] else s ∷ [];
  to_lower = λ s. s;
  parse = λ s. some s;
}

abbrev certificate : Certificate
certificate = record {
  ext_key_usage = client_auth ∷ server_auth ∷ [];
  unknown_ext_key_usage = identity_usage ∷ [];
  common_name = "uuid:1";
}

verify_lem_example :
    ((verify_identity_certificate texts certificate ≡ true) ↔ (
      ((for_both certificate && for_identity certificate) ≡ true)
      × (is_some (get_uuid_from_subject_common_name texts certificate) ≡ true)))
    × ((get_device_id_from_identity_certificate texts certificate ≡ some "1") ↔ (
        ((any (λ u. eqb u client_auth) certificate.ext_key_usage && for_identity certificate)
          ≡ true)
        × (get_uuid_from_subject_common_name texts certificate ≡ some "1")))
    × ((verify_cloud_certificate texts certificate "1" ≡ true) ↔ (
        (for_both certificate ≡ true)
        × (get_uuid_from_subject_common_name texts certificate ≡ some "1")))
verify_lem_example = verify_lem texts certificate "1"
