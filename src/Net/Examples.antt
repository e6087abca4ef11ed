-- ===== src/Net/Examples.antt =====
-- The theorems on bridge/net, on concrete configurations and messages, with a cache that is a list.
use device.Common.{
  ℕ, ◌+◌, ◌≤◌, ◌<◌, ◌==◌, ◌≡◌, ◌≢◌, refl, Bool, true, false, not, Option, none, some, List, [], ◌∷◌,
  ltb, eqb_iff, keep, is_empty, arith, if◌then◌else◌,
}
use device.Common.Dict.{lookup, store, lookup-store}
use device.Common.Eq.{nat_eq}
use device.Common.Eq.{pos, eqz}
use device.Net.Config.{
  ExternalAddress, Resolver, Config, validate, validate_all, validate_external_address,
}
use device.Net.Config.Validated.{Resolves, validate_lem}
use device.Net.Endpoints.{Hosts, get_endpoints, get_network}
use device.Net.Endpoints.Chosen.{get_endpoints-best}
use device.Net.Servers.{System, new_net, Net, fresh_net, serve, close, serves, closes, run_calls}
use device.Net.Servers.Balance.{Balanced, ReadsPorts, new_net-Balanced}
use device.Net.Servers.Closed.{close-once}
use device.Net.Duplicates.{Cache, IsCache, Message, serve_coap, Event, received, cleaned, run}
use device.Net.Duplicates.Once.{serve_coap-once}

-- "host:1" in the network udp4, and "[six]:0" in udp6.
abbrev resolver : Resolver
resolver = record {
  split_host_port = λ a.
      if a == "host:1"
      then some ("host", "1")
      else if a == "[six]:0"
      then some ("six", "0")
      else none;
  parses_port = λ p. true;
  resolves4 = λ a. a == "host:1";
  resolves6 = λ a. a == "[six]:0";
}

abbrev cfg : Config
cfg = record {
  external_addresses = "host:1" ∷ "[six]:0" ∷ [];
  max_message_size = 0;
  deduplication_lifetime = pos 5;
  external_addresses_port = [];
}

abbrev addresses : List ExternalAddress
addresses =
    record { host = "host"; port = "1"; network = "udp4" }
    ∷ record { host = "six"; port = "0"; network = "udp6" }
    ∷ []

abbrev valid_cfg : Config
valid_cfg = record {
  external_addresses = "host:1" ∷ "[six]:0" ∷ [];
  max_message_size = 2097152;
  deduplication_lifetime = pos 5;
  external_addresses_port = addresses;
}

validate_lem_example :
    Resolves resolver cfg.external_addresses addresses
    × (is_empty cfg.external_addresses ≡ false)
    × (0 < 2097152)
    × (eqz (pos 5) (pos 0) ≡ false)
    × (validate resolver valid_cfg ≡ some valid_cfg)
unfolding validate validate_all validate_external_address
validate_lem_example = validate_lem resolver cfg valid_cfg refl

abbrev hosts : Hosts
hosts = record {
  split_host_port = λ a. if a == "[six]:7" then some ("six", "7") else none;
  is_v4 = λ h. false;
}

get_endpoints-best_example :
    get_endpoints hosts addresses (some true) "[six]:7"
    ≡ record { uri = "coap://host:1"; priority = 0 } ∷ []
unfolding get_network
get_endpoints-best_example = get_endpoints-best hosts addresses (some true) "[six]:7" "six" "7" refl

-- The second multicast address cannot be joined.
abbrev system : System
system = record {
  new_conn = λ network port. some (some "5683");
  new_mcast_conn = λ a. not (a == "224.0.1.188:5683");
}

system-ReadsPorts : ReadsPorts system
system-ReadsPorts network port h = absurd (ground (arith, h))

new_net-Balanced_example : Balanced (
    new_net resolver system cfg
      ("224.0.1.187:5683" ∷ "224.0.1.188:5683" ∷ [])
      []
      (record { opened = 0; closed = 0 }))
new_net-Balanced_example =
    new_net-Balanced resolver system cfg ("224.0.1.187:5683" ∷ "224.0.1.188:5683" ∷ []) []
      system-ReadsPorts

abbrev closed_net : Net
closed_net = close (run_calls fresh_net (serves ∷ closes ∷ serves ∷ closes ∷ []))

close-once_example :
    (closed_net.done_closed ≡ 1)
    × (closed_net.servers_stopped + closed_net.sockets_closed ≡ 1)
    × ((serve closed_net).0 ≡ false)
close-once_example = close-once (serves ∷ closes ∷ serves ∷ closes ∷ [])

-- A cache that gives back an element also after its time.
abbrev loaded : ℕ → ℕ → Option ℕ → List (ℕ × ℕ) → (ℕ × Bool) × List (ℕ × ℕ)
loaded id new none c = ((new, false), store id new c)
loaded id new (some valid) c = ((valid, true), c)

abbrev list_cache : Cache (List (ℕ × ℕ))
list_cache = record {
  load_or_store = λ now id new c. loaded id new (lookup id c) c;
  check_expirations = λ now c. keep (λ e. not (ltb e.1 now)) c;
  is_expired = λ valid now. ltb valid now;
  valid_until = λ id c. lookup id c;
}

kept_element :
    (now id valid : ℕ) (c : List (ℕ × ℕ))
    → lookup id c ≡ some valid
    → now ≤ valid
    → lookup id (keep (λ e. not (ltb e.1 now)) c) ≡ some valid
unfolding lookup
kept_element now id valid [] v l = v
kept_element now id valid ((i, w) ∷ c) v l = ground (arith, v, l, kept_element now id valid c)

loads_element :
    (id new valid : ℕ) (c : List (ℕ × ℕ))
    → lookup id c ≡ some valid
    → ((loaded id new (lookup id c) c).0 ≡ (valid, true))
      × (lookup id (loaded id new (lookup id c) c).1 ≡ some valid)
loads_element id new valid c v = rw v (refl, v)

stores_element :
    (id new : ℕ) (c : List (ℕ × ℕ))
    → lookup id c ≡ none
    → ((loaded id new (lookup id c) c).0 ≡ (new, false))
      × (lookup id (loaded id new (lookup id c) c).1 ≡ some new)
stores_element id new c v = rw v (refl, ground (arith, lookup-store id id new c, eqb_iff id id))

keeps_others :
    (id new other : ℕ) (o : Option ℕ) (c : List (ℕ × ℕ))
    → id ≢ other
    → lookup other (loaded id new o c).1 ≡ lookup other c
keeps_others id new other none c n =
    ground (arith, n, lookup-store id other new c, eqb_iff id other)
keeps_others id new other (some v) c n = refl

list_cache-IsCache : IsCache list_cache
list_cache-IsCache = record {
  lives = λ now valid l. ground (arith, l);
  loads = λ now id new valid c v l. loads_element id new valid c v;
  stores = λ now id new c n. stores_element id new c n;
  others = λ now id new other c n. keeps_others id new other (lookup id c) c n;
  cleans = λ now id valid c v l. kept_element now id valid c v l;
}

abbrev message : Message
message = record { message_id = some 7; confirmable = false }

abbrev meanwhile : List Event
meanwhile =
    cleaned 12 ∷ received 13 (record { message_id = some 8; confirmable = false }) ∷ cleaned 14 ∷ []

serve_coap-once_example :
    ((serve_coap list_cache 5 10 message []).0 ≡ true)
    × ((serve_coap list_cache 5 15 message
          (run list_cache 5 meanwhile (serve_coap list_cache 5 10 message []).1)).0
        ≡ false)
unfolding lookup
serve_coap-once_example =
    serve_coap-once list_cache list_cache-IsCache 5 10 15 7 meanwhile [] refl
      (omega arith, (omega arith, (omega arith, tt))) (omega arith)
