-- ===== src/Schema/Endpoints.antt =====
-- schema/link.go: the endpoints of a link, by scheme, and PatchEndpoint, which adds those that are
-- missing. Addresses are kitNet's and net's: their functions are the fields of `AddrOps`.
pub mod Filters
mod Examples
use device.Common.{
  ℕ, String, ◌==◌, Bool, true, false, not, ◌&&◌, ◌||◌, Option, none, some, List, [], ◌∷◌, ◌++◌, map,
  is_empty, eqb, any, if◌then◌else◌,
}
use device.Schema.Link.{Endpoint, Policy, ResourceLink}

-- What ParseIPZone and the tests of net.IP say of a host name.
pub record Ip : Type 0 where
  pub text : String
  pub is_v4 : Bool
  pub zone : String
  pub link_local_unicast : Bool
  pub link_local_multicast : Bool

-- `parse` is Endpoint.GetAddr of a URI; `uri` the text of a url.URL with the scheme and the address as
-- its host; `contains` is strings.Contains.
pub record AddrOps (Addr : Type 0) : Type 0 where
  pub parse : String → Option Addr
  pub scheme : Addr → String
  pub port : Addr → ℕ
  pub set_port : ℕ → Addr → Addr
  pub set_scheme : String → Addr → Addr
  pub url : Addr → String
  pub uri : String → Addr → String
  pub ip : Addr → Option Ip
  pub contains : String → String → Bool

abbrev pub tcp_secure_scheme : String
tcp_secure_scheme = "coaps+tcp"

abbrev pub tcp_scheme : String
tcp_scheme = "coap+tcp"

abbrev pub udp_scheme : String
udp_scheme = "coap"

abbrev pub udp_secure_scheme : String
udp_secure_scheme = "coaps"

-- isSecuredScheme
unfoldable pub is_secured_scheme : String → Bool
is_secured_scheme s = (s == tcp_secure_scheme) || (s == udp_secure_scheme)

-- isUnsecuredScheme
unfoldable pub is_unsecured_scheme : String → Bool
is_unsecured_scheme s = (s == tcp_scheme) || (s == udp_scheme)

module _ {Addr : Type 0} (ops : AddrOps Addr) where
  abbrev pub passes : (String → Bool) → Option Addr → Bool
  passes filter none = false
  passes filter (some addr) = filter (ops.scheme addr)

  -- getEndpointsWithFilter
  unfoldable pub get_endpoints_with_filter : (String → Bool) → List Endpoint → List Endpoint
  get_endpoints_with_filter filter [] = []
  get_endpoints_with_filter filter (ep ∷ eps) =
      let rest = get_endpoints_with_filter filter eps in
      if passes filter (ops.parse ep.uri) then ep ∷ rest else rest

  unfoldable pub filter_secure_endpoints : List Endpoint → List Endpoint
  filter_secure_endpoints = get_endpoints_with_filter is_secured_scheme

  unfoldable pub filter_unsecure_endpoints : List Endpoint → List Endpoint
  filter_unsecure_endpoints = get_endpoints_with_filter is_unsecured_scheme

  abbrev first_of : Option Addr → String → Option Addr → Option Addr
  first_of none scheme rest = none
  first_of (some u) scheme rest = if ops.scheme u == scheme then some u else rest

  -- Endpoints.GetAddr
  unfoldable pub get_addr : List Endpoint → String → Option Addr
  get_addr [] scheme = none
  get_addr (ep ∷ eps) scheme =
      let rest = get_addr eps scheme in first_of (ops.parse ep.uri) scheme rest

  -- udpEndpoint, udpTlsEndpoint, tcpEndpoint and tcpTlsEndpoint, for a port of the policy.
  abbrev pub port_endpoint : String → ℕ → Addr → List Endpoint
  port_endpoint scheme port addr =
      if eqb port 0
      then []
      else record { uri = ops.uri scheme (ops.set_port port addr); priority = 0 } ∷ []

  abbrev pub is_true : Option Bool → Bool
  is_true none = false
  is_true (some b) = b

  abbrev pub policy_endpoints : Policy → Addr → List Endpoint
  policy_endpoints p addr =
      port_endpoint (if is_true p.secured then udp_secure_scheme else udp_scheme) p.udp_port addr
      ++ (port_endpoint tcp_scheme p.tcp_port addr
          ++ port_endpoint tcp_secure_scheme p.tcp_tls_port addr)

  abbrev pub or_device : List Endpoint → Addr → List Endpoint → List Endpoint
  or_device [] addr device_endpoints =
      if is_secured_scheme (ops.scheme addr)
      then filter_secure_endpoints device_endpoints
      else device_endpoints
  or_device (ep ∷ eps) addr device_endpoints = ep ∷ eps

  abbrev patch_policy : Option Policy → Addr → List Endpoint → ResourceLink → ResourceLink
  patch_policy none addr device_endpoints r = r
  patch_policy (some p) addr device_endpoints r = record r {
    endpoints = or_device (policy_endpoints p addr) addr device_endpoints;
  }

  -- patchEndpoint
  unfoldable pub patch_missing : Addr → List Endpoint → ResourceLink → ResourceLink
  patch_missing addr device_endpoints r =
      if not (is_empty r.endpoints) then r else patch_policy r.policy addr device_endpoints r

  -- The endpoint that a round of PatchEndpoint's loop keeps, if it keeps one.
  abbrev patch_ip : Option Ip → Addr → Addr → Endpoint → List Endpoint
  patch_ip none addr addr_ep ep = []
  patch_ip (some ip) addr addr_ep ep =
      if (not ip.is_v4 && (ip.zone == "") && ip.link_local_unicast) || ip.link_local_multicast
      then (if not (ops.contains (ops.url addr) ip.text)
          then []
          else record {
            uri =
                ops.url
                  (ops.set_port (ops.port addr_ep) (ops.set_scheme (ops.scheme addr_ep) addr));
            priority = ep.priority;
          }
            ∷ [])
      else ep ∷ []

  abbrev patch_parsed : Option Addr → Addr → Endpoint → List Endpoint
  patch_parsed none addr ep = []
  patch_parsed (some addr_ep) addr ep = patch_ip (ops.ip addr_ep) addr addr_ep ep

  unfoldable pub patch_local : Addr → List Endpoint → List Endpoint
  patch_local addr [] = []
  patch_local addr (ep ∷ eps) = patch_parsed (ops.parse ep.uri) addr ep ++ patch_local addr eps

  -- ResourceLink.PatchEndpoint
  unfoldable pub patch_endpoint : Addr → List Endpoint → ResourceLink → ResourceLink
  patch_endpoint addr device_endpoints r =
      patch_missing addr device_endpoints
        (if is_empty r.endpoints then r else record r { endpoints = patch_local addr r.endpoints })

  -- ResourceLinks.PatchEndpoint
  unfoldable pub patch_endpoints : Addr → List Endpoint → List ResourceLink → List ResourceLink
  patch_endpoints addr device_endpoints rs = map (patch_endpoint addr device_endpoints) rs
