-- ===== src/Schema/Endpoints/Examples.antt =====
-- The theorems on the endpoints of schema/link.go, where an address is a scheme and a port, and the
-- text of a URL is its scheme.
use device.Common.{ℕ, String, ◌≡◌, refl, true, false, none, some, []}
use device.Schema.Link.{ResourceLink}
use device.Schema.Endpoints.{AddrOps, filter_unsecure_endpoints, patch_endpoint}
use device.Schema.Endpoints.Filters.{patch_endpoint-secured}

abbrev addr_ops : AddrOps (String × ℕ)
addr_ops = record {
  parse = λ s. some (s, 5683);
  scheme = λ a. a.0;
  port = λ a. a.1;
  set_port = λ n a. (a.0, n);
  set_scheme = λ s a. (s, a.1);
  url = λ a. a.0;
  uri = λ s a. s;
  ip = λ a. none;
  contains = λ s t. false;
}

abbrev secured : ResourceLink
secured = record {
  id = "";
  href = "/a";
  resource_types = [];
  interfaces = [];
  policy = some (record {
    bit_mask = 3;
    udp_port = 5684;
    tcp_port = 0;
    tcp_tls_port = 0;
    secured = some true;
  });
  endpoints = [];
  anchor = "";
  device_id = "d";
  instance_id = 0;
  title = "";
  supported_content_types = [];
}

patch_endpoint-secured_example :
    filter_unsecure_endpoints addr_ops (patch_endpoint addr_ops ("coap", 5683) [] secured).endpoints
    ≡ []
patch_endpoint-secured_example =
    patch_endpoint-secured addr_ops ("coap", 5683) [] secured
      (record {
        bit_mask = 3;
        udp_port = 5684;
        tcp_port = 0;
        tcp_tls_port = 0;
        secured = some true;
      })
      (λ z. (("coaps", 5683), refl, refl)) (λ z. (("coaps+tcp", 5683), refl, refl)) refl refl refl
      refl refl
