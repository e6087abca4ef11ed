-- ===== src/Certificate.antt =====
-- pkg/net/coap/verify.go: the checks of a peer's certificate, past its chain. An error is `none` or
-- `false`.
pub mod Accepted
mod Examples
use device.Common.{
  ℕ, String, ◌==◌, Bool, true, false, not, ◌&&◌, ◌||◌, Option, none, some, List, [], ◌∷◌, eqb, any,
  is_some, if◌then◌else◌,
}

-- The fields of x509.Certificate that are read: ExtKeyUsage, UnknownExtKeyUsage and the subject's
-- common name.
pub record Certificate : Type 0 where
  pub ext_key_usage : List ℕ
  pub unknown_ext_key_usage : List (List ℕ)
  pub common_name : String

-- strings.Split by ":", strings.ToLower, and uuid.Parse, of which the result is the text of the UUID.
pub record Texts : Type 0 where
  pub split : String → List String
  pub to_lower : String → String
  pub parse : String → Option String

-- x509.ExtKeyUsageServerAuth and ExtKeyUsageClientAuth
abbrev pub server_auth : ℕ
server_auth = 1

abbrev pub client_auth : ℕ
client_auth = 2

-- ExtendedKeyUsage_IDENTITY_CERTIFICATE
abbrev pub identity_usage : List ℕ
identity_usage = 1 ∷ 3 ∷ 6 ∷ 1 ∷ 4 ∷ 1 ∷ 44924 ∷ 1 ∷ 6 ∷ []

-- asn1.ObjectIdentifier.Equal
abbrev pub equal_ids : List ℕ → List ℕ → Bool
equal_ids [] [] = true
equal_ids (m ∷ ms) (n ∷ ns) = eqb m n && equal_ids ms ns
equal_ids _ _ = false

-- verifyOcfEKU
unfoldable pub verify_ocf_eku : List (List ℕ) → Bool
verify_ocf_eku [] = false
verify_ocf_eku (u ∷ us) = if equal_ids u identity_usage then true else verify_ocf_eku us

-- The loop of verifyEKU, from whether it has seen a client's and a server's usage.
unfoldable pub seen_usages : List ℕ → Bool → Bool → Bool × Bool
seen_usages [] client server = (client, server)
seen_usages (u ∷ us) client server =
    let as_client = seen_usages us true server in
    let as_server = seen_usages us client true in
    let as_other = seen_usages us client server in
    if eqb u client_auth then as_client else if eqb u server_auth then as_server else as_other

-- verifyEKU
unfoldable pub verify_eku : Certificate → Bool → Bool → Bool → Bool
verify_eku cert require_client require_server require_ocf_id =
    let seen = seen_usages cert.ext_key_usage false false in
    if require_client && not seen.0
    then false
    else if require_server && not seen.1
    then false
    else if not require_ocf_id
    then true
    else verify_ocf_eku cert.unknown_ext_key_usage

abbrev pub uuid_of : Texts → List String → Option String
uuid_of ops (scheme ∷ id ∷ []) = if not (ops.to_lower scheme == "uuid") then none else ops.parse id
uuid_of ops _ = none

-- getUUIDFromSubjectCommonName
unfoldable pub get_uuid_from_subject_common_name : Texts → Certificate → Option String
get_uuid_from_subject_common_name ops cert = uuid_of ops (ops.split cert.common_name)

-- GetDeviceIDFromIdentityCertificate
unfoldable pub get_device_id_from_identity_certificate : Texts → Certificate → Option String
get_device_id_from_identity_certificate ops cert =
    if not (verify_eku cert true false true)
    then none
    else get_uuid_from_subject_common_name ops cert

-- VerifyIdentityCertificate
unfoldable pub verify_identity_certificate : Texts → Certificate → Bool
verify_identity_certificate ops cert =
    if not (verify_eku cert true true false)
    then false
    else is_some (get_device_id_from_identity_certificate ops cert)

abbrev pub is_cloud : String → Option String → Bool
is_cloud cloud_id none = false
is_cloud cloud_id (some id) = id == cloud_id

-- VerifyCloudCertificate
unfoldable pub verify_cloud_certificate : Texts → Certificate → String → Bool
verify_cloud_certificate ops cert cloud_id =
    if not (verify_eku cert true true false)
    then false
    else is_cloud cloud_id (get_uuid_from_subject_common_name ops cert)
