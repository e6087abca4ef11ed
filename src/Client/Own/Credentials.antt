-- ===== src/Client/Own/Credentials.antt =====
-- ProvisionOwnerCredentials of client/core/otm/client.go, and setACL of client/core/ownDevice.go.
use device.Common.{
  ℕ, String, ◌==◌, Bool, not, ◌&&◌, Option, none, some, List, [], ◌∷◌, ◌++◌, map, length, eqb,
  if◌then◌else◌,
}
use device.Common.Keys.{has}
use device.Common.Eq.{string_eq}
use device.Schema.Link.{ResourceLink, get_resource_link, has_one_of}
use device.Client.Own.Requests.{
  owner_conn, psk_conn, get_csr, set_credentials, delete_acl, set_acl, OwnerCredential, pairwise,
  identity, trust_ca, AclResource, subject_device, anon_clear, AccessControl, internal, unavailable,
  aborted, panicked, Reply,
}
use device.Client.Own.Monad.{Peer, M, ◌>>=◌, ◌>>◌, pure, require, from_option, send, update}

-- What the program calls to set up certificates: the signer, pem.EncodeToMemory of a request, and of a
-- certificate, and ParsePemCertificates. They are functions of the user and of crypto/x509.
pub record Certificates : Type 0 where
  pub sign : String → Option String
  pub encode_request : String → String
  pub encode_certificate : String → String
  pub parse_chain : String → Option (List String)

-- encodeToPem
unfoldable pub encode_to_pem : Certificates → Reply → String
encode_to_pem x r = if r.csr_is_der then x.encode_request r.csr else r.csr

-- validateProvisionOwnerCredentials; the signer is there where certificates are set up.
unfoldable pub validate_provision_owner_credentials : String → List ℕ → Option String → Bool
validate_provision_owner_credentials owner_id psk none = not (owner_id == "") && eqb (length psk) 16
validate_provision_owner_credentials owner_id psk (some device_id) =
    not (owner_id == "") && not (device_id == "") && eqb (length psk) 16

-- certsFromChain[len(certsFromChain)-1]
unfoldable pub last_certificate : List String → Option String
last_certificate [] = none
last_certificate (c ∷ []) = some c
last_certificate (c ∷ d ∷ cs) = last_certificate (d ∷ cs)

unfoldable pub certificate_credentials :
    Peer → Certificates → String → String → M (List OwnerCredential)
certificate_credentials peer x owner_id device_id = do
  r ← send peer owner_conn get_csr
  require r.accepted aborted
  chain ← from_option (x.sign (encode_to_pem x r)) aborted
  certs ← from_option (x.parse_chain chain) aborted
  root ← from_option (last_certificate certs) panicked
  pure (identity device_id chain ∷ trust_ca owner_id (x.encode_certificate root) ∷ [])

abbrev pub setup_certificates :
    Peer → Option Certificates → String → String → M (List OwnerCredential)
setup_certificates peer none owner_id device_id = pure []
setup_certificates peer (some x) owner_id device_id =
    certificate_credentials peer x owner_id device_id

abbrev pub certificates_for : Option Certificates → String → Option String
certificates_for none device_id = none
certificates_for (some x) device_id = some device_id

-- ProvisionOwnerCredentials
unfoldable pub provision_owner_credentials :
    Peer → Option Certificates → String → String → List ℕ → M (Unit {0})
provision_owner_credentials peer x owner_id device_id psk = do
  require (validate_provision_owner_credentials owner_id psk (certificates_for x device_id)) aborted
  extra ← setup_certificates peer x owner_id device_id
  update peer owner_conn (set_credentials owner_id (pairwise owner_id psk ∷ extra)) aborted

abbrev at_href : String → AclResource
at_href href = record { href = href; wildcard = "" }

-- GetResourceHrefs: a set, whose members ToSlice gives in any order; here in that of the links.
unfoldable pub get_resource_hrefs : List ResourceLink → List String → List String
get_resource_hrefs [] types = []
get_resource_hrefs (l ∷ links) types =
    let rest = get_resource_hrefs links types in
    if has_one_of types l.resource_types && not (has l.href rest) then l.href ∷ rest else rest

-- acl.AllResources, and the resources of the three types.
unfoldable pub conf_resources : List ResourceLink → List AclResource
conf_resources links =
    record { href = ""; wildcard = "*" }
    ∷ map at_href (
        get_resource_hrefs links ("oic.r.coapcloudconf" ∷ [])
        ++ (get_resource_hrefs links ("oic.wk.mnt" ∷ [])
            ++ get_resource_hrefs links ("oic.r.softwareupdate" ∷ [])))

-- The access control list of setACL; permissions are create 1, read 2, write 4, delete 8, notify 16.
unfoldable pub owner_acl : String → List ResourceLink → List AccessControl
owner_acl owner links =
    record { permission = 31; subject = subject_device owner; resources = conf_resources links }
    ∷ record {
      permission = 14;
      subject = subject_device owner;
      resources = map at_href ("/oic/sec/sp" ∷ "/oic/sec/pstat" ∷ "/oic/sec/doxm" ∷ []);
    }
    ∷ record {
      permission = 2;
      subject = subject_device owner;
      resources = map at_href ("/oic/sec/csr" ∷ []);
    }
    ∷ record {
      permission = 2;
      subject = anon_clear;
      resources =
          map at_href ("/oic/d" ∷ "/oic/p" ∷ "/oic/res" ∷ "/oic/sec/sdi" ∷ "/oic/sec/doxm" ∷ []);
    }
    ∷ []

-- setACL; its caller reports an error as internal, but for that of GetResourceLink, which has a kind
-- of its own.
unfoldable pub set_owner_acl : Peer → List ResourceLink → String → M (Unit {0})
set_owner_acl peer links owner = do
  link ← from_option (get_resource_link links "/oic/sec/acl2") unavailable
  update peer psk_conn (delete_acl link.href) internal
  update peer psk_conn (set_acl link.href (owner_acl owner links)) internal
