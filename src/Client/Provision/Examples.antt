-- ===== src/Client/Provision/Examples.antt =====
-- The theorem on client/core/provisionDevice.go, on a concrete device.
use device.Common.{String, ◌≡◌, refl, true, false, none, some, List, [], ◌∷◌, ◌++◌, All}
use device.Schema.Link.{ResourceLink, get_resource_link}
use device.Schema.Endpoints.{AddrOps, filter_secure_endpoints}
use device.Client.Own.Requests.{rfpro, rfnop}
use device.Client.Provision.{
  Device, Update, Call, add_certificate_authority, set_cloud_resource, session,
}
use device.Client.Provision.Secured.{IsProvisioning, AllSecured, state_update, session-secured}

-- An address is the text of its scheme.
abbrev addr_ops : AddrOps String
addr_ops = record {
  parse = λ s. some s;
  scheme = λ a. a;
  port = λ a. 0;
  set_port = λ n a. a;
  set_scheme = λ s a. s;
  url = λ a. a;
  uri = λ s a. s;
  ip = λ a. none;
  contains = λ s t. false;
}

abbrev link : String → ResourceLink
link href = record {
  id = "";
  href = href;
  resource_types = [];
  interfaces = [];
  policy = none;
  endpoints = record { uri = "coap"; priority = 0 } ∷ record { uri = "coaps"; priority = 0 } ∷ [];
  anchor = "";
  device_id = "";
  instance_id = 0;
  title = "";
  supported_content_types = [];
}

abbrev links : List ResourceLink
links = link "/oic/sec/pstat" ∷ link "/oic/sec/cred" ∷ []

abbrev user_calls : List Call
user_calls =
    add_certificate_authority "ca" "pem"
    ∷ set_cloud_resource
        (record { authorization_provider = ""; url = ""; authorization_code = ""; cloud_id = "" })
    ∷ []

abbrev agrees : Device
agrees sent = true

session-secured_example :
    (middle : List Update) × (session addr_ops agrees links user_calls []
      ≡ state_update addr_ops agrees links (link "/oic/sec/pstat") rfpro
        ∷ (middle ++ state_update addr_ops agrees links (link "/oic/sec/pstat") rfnop ∷ []))
    × All (IsProvisioning addr_ops) middle
    × AllSecured addr_ops (filter_secure_endpoints addr_ops (link "/oic/sec/pstat").endpoints)
unfolding get_resource_link
session-secured_example =
    session-secured addr_ops agrees links (link "/oic/sec/pstat") user_calls refl refl
