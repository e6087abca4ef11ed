-- ===== src/Client/Connections/Examples.antt =====
-- The theorems on the connections of client/core/device.go, on concrete devices.
use device.Common.{String, ◌≡◌, refl, true, false, none, some, List, [], ◌∷◌}
use device.Common.Dict.{lookup, store}
use device.Common.Eq.{string_eq}
use device.Schema.Link.{Endpoint}
use device.Schema.Endpoints.{AddrOps}
use device.Client.Connections.{
  Device, connected, connect_to_url, load_or_create, dial, lose, close_handler, Event, connects,
  loses, new_device,
}
use device.Client.Connections.Late.{close_handler-late}

-- Addresses that are their own URL.
abbrev addr_ops : AddrOps String
addr_ops = record {
  parse = λ u. some u;
  scheme = λ a. "coap";
  port = λ a. 5683;
  set_port = λ p a. a;
  set_scheme = λ s a. a;
  url = λ a. a;
  uri = λ s a. a;
  ip = λ a. none;
  contains = λ a b. false;
}

abbrev events : List Event
events =
    connects true "coap://a"
    ∷ connects false "coap://b"
    ∷ connects true "coap://b"
    ∷ loses true 0
    ∷ connects true "coap://a"
    ∷ []

-- One connection, to "coap://a".
abbrev one_connection : Device
one_connection = (connect_to_url true "coap://a" new_device).1

abbrev endpoints : List Endpoint
endpoints =
    record { uri = "coap://b"; priority = 0 } ∷ record { uri = "coap://c"; priority = 0 } ∷ []

close_handler-late_example :
    ((connect_to_url true "coap://a" (lose 0 one_connection)).0 ≡ connected "coap://a" 1)
    × ((close_handler true 0 (connect_to_url true "coap://a" (lose 0 one_connection)).1).alive 1
        ≡ true)
    × (lookup "coap://a"
          (close_handler true 0 (connect_to_url true "coap://a" (lose 0 one_connection)).1).conn
        ≡ none)
unfolding connect_to_url load_or_create dial lookup store
close_handler-late_example =
    close_handler-late "coap://a" 0 0 one_connection refl refl refl refl refl
