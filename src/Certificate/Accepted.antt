-- ===== src/Certificate/Accepted.antt =====
-- Which certificates pkg/net/coap/verify.go accepts.
use device.Common.{
  ℕ, String, eq_iff, ◌≡◌, ◌↔◌, refl, Bool, true, false, not, ◌&&◌, ◌||◌, Option, none, some, List,
  [], ◌∷◌, eqb, any, is_some, arith, if◌then◌else◌,
}
use device.Certificate.{
  Certificate, Texts, server_auth, client_auth, identity_usage, equal_ids, verify_ocf_eku,
  seen_usages, verify_eku, get_uuid_from_subject_common_name,
  get_device_id_from_identity_certificate, verify_identity_certificate, is_cloud,
  verify_cloud_certificate,
}

seen_usages-any :
    (us : List ℕ) (client server : Bool)
    → seen_usages us client server
      ≡ (client || any (λ u. eqb u client_auth) us, server || any (λ u. eqb u server_auth) us)
unfolding seen_usages
seen_usages-any [] client server = ground arith
seen_usages-any (u ∷ us) client server = ground (
  arith,
  seen_usages-any us true server,
  seen_usages-any us client true,
  seen_usages-any us client server,
)

verify_ocf_eku-any :
    (us : List (List ℕ)) → verify_ocf_eku us ≡ any (λ u. equal_ids u identity_usage) us
unfolding verify_ocf_eku
verify_ocf_eku-any [] = refl
verify_ocf_eku-any (u ∷ us) = ground (arith, verify_ocf_eku-any us)

-- The certificate is for clients and for servers.
abbrev pub for_both : Certificate → Bool
for_both cert =
    any (λ u. eqb u client_auth) cert.ext_key_usage
    && any (λ u. eqb u server_auth) cert.ext_key_usage

abbrev pub for_identity : Certificate → Bool
for_identity cert = any (λ u. equal_ids u identity_usage) cert.unknown_ext_key_usage

verify_eku-both : (cert : Certificate) → verify_eku cert true true false ≡ for_both cert
unfolding verify_eku
verify_eku-both cert = rw (seen_usages-any cert.ext_key_usage false false) (ground arith)

verify_eku-identity :
    (cert : Certificate)
    → verify_eku cert true false true
      ≡ (any (λ u. eqb u client_auth) cert.ext_key_usage && for_identity cert)
unfolding verify_eku
verify_eku-identity cert =
    rw
      (
        seen_usages-any cert.ext_key_usage false false,
        verify_ocf_eku-any cert.unknown_ext_key_usage,
      )
      (ground arith)

-- The verdicts, from the three usages and the UUID.
accepted :
    (c s o : Bool) (u : Option String) (id : String)
    → (((if not (c && s) then false else is_some (if not (c && o) then none else u)) ≡ true)
        ↔ ((((c && s) && o) ≡ true) × (is_some u ≡ true)))
      × (((if not (c && o) then none else u) ≡ some id) ↔ (((c && o) ≡ true) × (u ≡ some id)))
      × (((if not (c && s) then false else is_cloud id u) ≡ true)
          ↔ (((c && s) ≡ true) × (u ≡ some id)))
accepted c s o none id = ground arith
accepted c s o (some v) id = ground (arith, eq_iff v id)

-- VerifyIdentityCertificate accepts a certificate just when it is for clients, for servers and an
-- identity of OCF, and has a UUID as its common name. GetDeviceIDFromIdentityCertificate gives an ID just
-- when the certificate is for clients and an identity of OCF and this ID is its UUID.
-- VerifyCloudCertificate accepts one just when it is for clients and for servers and its UUID is that of
-- the cloud.
pub verify_lem :
    (ops : Texts) (cert : Certificate) (id : String)
    → ((verify_identity_certificate ops cert ≡ true) ↔ (
        ((for_both cert && for_identity cert) ≡ true)
        × (is_some (get_uuid_from_subject_common_name ops cert) ≡ true)))
      × ((get_device_id_from_identity_certificate ops cert ≡ some id) ↔ (
          ((any (λ u. eqb u client_auth) cert.ext_key_usage && for_identity cert) ≡ true)
          × (get_uuid_from_subject_common_name ops cert ≡ some id)))
      × ((verify_cloud_certificate ops cert id ≡ true)
          ↔ ((for_both cert ≡ true) × (get_uuid_from_subject_common_name ops cert ≡ some id)))
unfolding verify_identity_certificate get_device_id_from_identity_certificate
    verify_cloud_certificate
verify_lem ops cert id =
    rw (verify_eku-both cert, verify_eku-identity cert)
      (accepted (any (λ u. eqb u client_auth) cert.ext_key_usage)
        (any (λ u. eqb u server_auth) cert.ext_key_usage) (for_identity cert)
        (get_uuid_from_subject_common_name ops cert) id)
