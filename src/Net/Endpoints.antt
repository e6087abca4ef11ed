-- ===== src/Net/Endpoints.antt =====
-- bridge/net/network.go: getNetwork and GetEndpoints, which say under which address a request came.
pub mod Chosen
use Prim.Native.String.{String, ◌++◌}
use device.Common.{
  Bool, true, false, ◌==◌, Option, none, some, List, [], ◌∷◌, is_empty, if◌then◌else◌,
}
use device.Schema.Link.{Endpoint}
use device.Net.Config.{ExternalAddress, filter_by_network, filter_by_port}

-- The functions of net: SplitHostPort, and whether ParseIP gives an address of version 4.
pub record Hosts : Type 0 where
  pub split_host_port : String → Option (String × String)
  pub is_v4 : String → Bool

abbrev pub network_of : Bool → String
network_of v4 = if v4 then "udp4" else "udp6"

abbrev pub only_network : Hosts → String → List ExternalAddress → String
only_network ops host (e ∷ []) = e.network
only_network ops host _ = network_of (ops.is_v4 host)

-- getNetwork; of a control message, whether its destination is of version 4.
unfoldable pub get_network : Hosts → List ExternalAddress → Option Bool → String → String → String
get_network ops addresses (some v4) local_host local_port = network_of v4
get_network ops addresses none local_host local_port =
    only_network ops local_host (filter_by_port local_port addresses)

abbrev pub or_all : List ExternalAddress → List ExternalAddress → List ExternalAddress
or_all [] all = all
or_all (e ∷ es) all = e ∷ es

abbrev pub address_text : ExternalAddress → String
address_text e = (if e.network == "udp6" then "[" ++ (e.host ++ "]") else e.host) ++ (":" ++ e.port)

abbrev pub chosen : String → List ExternalAddress → String
chosen local_addr [] = local_addr
chosen local_addr (e ∷ es) = address_text e

abbrev pub endpoints_at :
    Hosts → List ExternalAddress → Option Bool → String → Option (String × String) → List Endpoint
endpoints_at ops addresses cm local_addr none = []
endpoints_at ops addresses cm local_addr (some (host, port)) =
    let filtered = filter_by_network (get_network ops addresses cm host port) addresses in
    record {
      uri = "coap://" ++ chosen local_addr (or_all (filter_by_port port filtered) filtered);
      priority = 0;
    }
    ∷ []

-- GetEndpoints
unfoldable pub get_endpoints : Hosts → List ExternalAddress → Option Bool → String → List Endpoint
get_endpoints ops addresses cm local_addr =
    endpoints_at ops addresses cm local_addr (ops.split_host_port local_addr)
