-- ===== src/Client/Provision.antt =====
-- client/core/provisionDevice.go and disownDevice.go: the updates that provision an owned device and
-- disown it. An error is `false`.
pub mod Secured
mod Examples
use device.Common.{
  String, ◌==◌, Bool, true, false, not, ◌&&◌, ◌||◌, Option, none, some, List, [], ◌∷◌, ◌++◌,
  if◌then◌else◌,
}
use device.Common.Keys.{has}
use device.Schema.Link.{ResourceLink, Endpoint, get_resource_link}
use device.Schema.Endpoints.{AddrOps, filter_secure_endpoints}
use device.Client.Own.Requests.{
  OperationalState, reset, rfpro, rfnop, OwnerCredential, trust_ca, AccessControl,
}
use device.Cloud.State.{ConfigurationUpdateRequest}

-- The bodies of the updates.
pub data Body : Type 0 where
  onboarding_state : OperationalState → Body
  credentials : List OwnerCredential → Body
  cloud_configuration : ConfigurationUpdateRequest → Body
  access_control : AccessControl → Body

-- UpdateResource of a link: its href, and the endpoints that may be connected to.
pub record Update : Type 0 where
  pub href : String
  pub endpoints : List Endpoint
  pub body : Body

-- Whether an update succeeds, from those sent so far with it at their end.
abbrev pub Device : Type 0
Device = List Update → Bool

abbrev pub cloud_type : String
cloud_type = "oic.r.coapcloudconf"

abbrev pub cloud_link : List ResourceLink → Option ResourceLink
cloud_link [] = none
cloud_link (l ∷ ls) =
    let rest = cloud_link ls in if has cloud_type l.resource_types then some l else rest

-- What the user does between Provision and Close.
pub data Call : Type 0 where
  add_credentials : List OwnerCredential → Call
  add_certificate_authority : String → String → Call
  set_cloud_resource : ConfigurationUpdateRequest → Call
  set_access_control : AccessControl → Call

module _ {Addr : Type 0} (ops : AddrOps Addr) (device : Device) (links : List ResourceLink) where
  abbrev pub update_link : Option ResourceLink → Body → List Update → Bool × List Update
  update_link none body sent = (false, sent)
  update_link (some l) body sent =
      let sent' =
        sent
        ++ record {
          href = l.href;
          endpoints = filter_secure_endpoints ops l.endpoints;
          body = body;
        }
          ∷ [] in
      (device sent', sent')

  -- An update of the resource with this href.
  unfoldable pub update_resource : String → Body → List Update → Bool × List Update
  update_resource href body sent = update_link (get_resource_link links href) body sent

  -- ProvisioningClient.start
  unfoldable pub start : List Update → Bool × List Update
  start sent = update_resource "/oic/sec/pstat" (onboarding_state rfpro) sent

  -- ProvisioningClient.Close
  unfoldable pub finish : List Update → Bool × List Update
  finish sent = update_resource "/oic/sec/pstat" (onboarding_state rfnop) sent

  abbrev pub update_cloud :
      Option ResourceLink → ConfigurationUpdateRequest → List Update → Bool × List Update
  update_cloud none r sent = (false, sent)
  update_cloud (some l) r sent =
      if l.href == "" then (false, sent) else update_link (some l) (cloud_configuration r) sent

  -- AddCredentials, AddCertificateAuthority, SetCloudResource and SetAccessControl.
  unfoldable pub call : Call → List Update → Bool × List Update
  call (add_credentials cs) sent = update_resource "/oic/sec/cred" (credentials cs) sent
  call (add_certificate_authority subject pem) sent =
      update_resource "/oic/sec/cred" (credentials (trust_ca subject pem ∷ [])) sent
  call (set_cloud_resource r) sent =
      if (r.authorization_provider == "") || (r.authorization_code == "") || (r.url == "")
      then (false, sent)
      else update_cloud (cloud_link links) r sent
  call (set_access_control a) sent = update_resource "/oic/sec/acl2" (access_control a) sent

  unfoldable pub calls : List Call → List Update → List Update
  calls [] sent = sent
  calls (c ∷ cs) sent = calls cs (call c sent).1

  abbrev pub provisioned : List Call → Bool × List Update → List Update
  provisioned cs (true, sent) = (finish (calls cs sent)).1
  provisioned cs (false, sent) = sent

  -- Provision, the calls of the user, and Close.
  unfoldable pub session : List Call → List Update → List Update
  session cs sent = provisioned cs (start sent)

  -- An update that fails since the device closed the connection is no error.
  abbrev pub disown_owned : Bool → Bool × List Update → Bool × List Update
  disown_owned connection_closed (updated, sent) = (updated || connection_closed, sent)

  -- Disown, past GetOwnership and GetSdkOwnerID, up to the Close of the device; whether the connection
  -- was closed by the update is an argument.
  unfoldable pub disown : String → String → Bool → List Update → Bool × List Update
  disown owner_id sdk_id connection_closed sent =
      if not (owner_id == sdk_id)
      then (owner_id == "00000000-0000-0000-0000-000000000000", sent)
      else disown_owned connection_closed
          (update_resource "/oic/sec/pstat" (onboarding_state reset) sent)
