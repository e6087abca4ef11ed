-- ===== src/Cloud/Requests/Examples.antt =====
-- The theorem on the requests of the cloud, on concrete links.
use device.Common.{String, ◌≡◌, refl, Option, none, some, [], ◌∷◌, map}
use device.Schema.Link.{ResourceLink, has_type}
use device.Cloud.Publish.{patch_device_link, hrefs}
use device.Cloud.Requests.{get, Request, replied, Parts, in_filter_supported_codes}
use device.Cloud.Requests.Published.{served, handled, serve_coap-published}

abbrev link : String → String → ResourceLink
link href type = record {
  id = "";
  href = href;
  resource_types = type ∷ [];
  interfaces = [];
  policy = none;
  endpoints = [];
  anchor = "";
  device_id = "";
  instance_id = 0;
  title = "";
  supported_content_types = [];
}

abbrev path_of : Option String → String
path_of none = ""
path_of (some p) = p

-- A handler that answers the path.
abbrev parts : Parts String
parts = record {
  device_id = "d";
  handler = λ r. replied (path_of r.path);
  get_links = λ types. link "/lamp" "light" ∷ link "/dev" "oic.wk.d" ∷ [];
  create_content = λ r links. replied "links";
  create_error = λ e. e;
  add_query = λ q queries. queries;
}

abbrev request : Request
request = record { code = get; path = none; queries = some []; payload = "" }

serve_coap-published_example :
    map (served parts request) (hrefs (patch_device_link (parts.get_links [])))
    ≡ map (handled parts request) (hrefs (parts.get_links []))
unfolding in_filter_supported_codes has_type
serve_coap-published_example = serve_coap-published parts request refl ((refl, refl), tt)
