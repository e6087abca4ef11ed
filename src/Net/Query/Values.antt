-- ===== src/Net/Query/Values.antt =====
-- What bridge/net/request.go reads from queries.
use Prim.Native.String.{String, ◌++◌, len, slice}
use text.Mathlib.Text.{starts_with}
use text.Mathlib.TextPositions.{starts_with-append, slice-append_right, len-append}
use device.Common.{◌≡◌, refl, ap, ◌∙◌, false, Option, none, some, List, [], ◌∷◌, map, arith, any}
use device.Net.Query.{
  query, first_value, values_of, get_value_from_query, uuid_nil, parsed_id, device_id,
  resource_types,
}

slice_rest : (s t : String) → slice (s ++ t) (len s) (len (s ++ t)) ≡ t
slice_rest s t = rw (len-append s t) (slice-append_right s t)

-- Queries before the first one of the key are passed over.
abbrev pub after : List String → List String → List String
after [] qs = qs
after (p ∷ ps) qs = p ∷ after ps qs

first_value-after :
    (prefix value : String) (ps qs : List String)
    → any (λ q. starts_with q prefix) ps ≡ false
    → first_value prefix (after ps ((prefix ++ value) ∷ qs)) ≡ some value
first_value-after prefix value [] qs h =
    rw (starts_with-append prefix value) (ap some (slice_rest prefix value))
first_value-after prefix value (p ∷ ps) qs h =
    ground (arith, h, first_value-after prefix value ps qs)

-- The value of a key is that of its first query: other queries before it, and those after it, do not
-- count. So DeviceID of a request with a query of "di" is the ID in the first of them.
device_id-first :
    (parse : String → Option String) (value : String) (ps qs : List String)
    → any (λ q. starts_with q "di=") ps ≡ false
    → (get_value_from_query (some (after ps (query "di" value ∷ qs))) "di" ≡ some value)
      × (device_id parse (some (after ps (query "di" value ∷ qs)))
          ≡ elim (parse value) [ none ↦ uuid_nil | some id ↦ id ])
unfolding get_value_from_query device_id
device_id-first parse value ps qs h =
    let found = first_value-after "di=" value ps qs h in (found, ap (parsed_id parse) found)

-- The types of a request are the values of all its queries of "rt", in their order.
resource_types-map : (types : List String) → resource_types (some (map (query "rt") types)) ≡ types
unfolding resource_types
resource_types-map [] = refl
resource_types-map (t ∷ ts) = rw (starts_with-append "rt=" t) (
    ap (λ v. v ∷ values_of "rt=" (map (query "rt") ts)) (slice_rest "rt=" t)
    ∙ ap (λ vs. t ∷ vs) (resource_types-map ts))
