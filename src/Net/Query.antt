-- ===== src/Net/Query.antt =====
-- bridge/net/request.go: the queries of a request. `none` is the error of Queries.
pub mod Values
use Prim.Native.String.{String, ◌++◌}
use text.Mathlib.Text.{starts_with}
use device.Common.{Option, none, some, List, [], ◌∷◌, if◌then◌else◌}
use device.Schema.Link.{trim_prefix}

-- A query of this key.
abbrev pub query : String → String → String
query key value = (key ++ "=") ++ value

abbrev pub first_value : String → List String → Option String
first_value prefix [] = none
first_value prefix (q ∷ qs) =
    if starts_with q prefix then some (trim_prefix q prefix) else first_value prefix qs

abbrev pub values_of : String → List String → List String
values_of prefix [] = []
values_of prefix (q ∷ qs) =
    let rest = values_of prefix qs in
    if starts_with q prefix then trim_prefix q prefix ∷ rest else rest

-- GetValueFromQuery; its two errors are `none`.
unfoldable pub get_value_from_query : Option (List String) → String → Option String
get_value_from_query none key = none
get_value_from_query (some queries) key = first_value (key ++ "=") queries

abbrev pub or_empty : Option String → String
or_empty none = ""
or_empty (some v) = v

-- Interface
unfoldable pub get_interface : Option (List String) → String
get_interface queries = or_empty (get_value_from_query queries "if")

abbrev pub uuid_nil : String
uuid_nil = "00000000-0000-0000-0000-000000000000"

abbrev pub parsed_id : (String → Option String) → Option String → String
parsed_id parse none = uuid_nil
parsed_id parse (some v) = elim (parse v) [ none ↦ uuid_nil | some id ↦ id ]

-- DeviceID; uuid.Parse is an argument.
unfoldable pub device_id : (String → Option String) → Option (List String) → String
device_id parse queries = parsed_id parse (get_value_from_query queries "di")

-- ResourceTypes
unfoldable pub resource_types : Option (List String) → List String
resource_types none = []
resource_types (some queries) = values_of "rt=" queries
