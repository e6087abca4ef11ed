-- ===== src/Net/Endpoints/Chosen.antt =====
-- Which of the configured addresses GetEndpoints of bridge/net/network.go tells.
use Prim.Native.String.{String, ◌++◌}
use device.Common.{
  ◌==◌, ◌≡◌, refl, ap, ◌∙◌, Bool, ◌&&◌, Option, none, some, List, [], ◌∷◌, keep, arith,
  if◌then◌else◌, inl, inr, Bool-cases,
}
use device.Net.Config.{ExternalAddress, filter_by_network, filter_by_port}
use device.Net.Endpoints.{
  Hosts, get_network, or_all, address_text, chosen, endpoints_at, get_endpoints,
}

-- The first address that passes a test.
abbrev pub find : (ExternalAddress → Bool) → List ExternalAddress → Option ExternalAddress
find p [] = none
find p (e ∷ es) = let rest = find p es in if p e then some e else rest

abbrev pub text_or : Option ExternalAddress → String → String
text_or none other = other
text_or (some e) other = address_text e

abbrev pub is_at : String → String → ExternalAddress → Bool
is_at network port e = (e.network == network) && (e.port == port)

abbrev pub is_on : String → ExternalAddress → Bool
is_on network e = e.network == network

-- The address that is told: the first in the network with the port, else the first in the network, else
-- the local one.
abbrev pub best : List ExternalAddress → String → String → String → String
best addresses network port local_addr =
    text_or (find (is_at network port) addresses)
      (text_or (find (is_on network) addresses) local_addr)

chosen-keep :
    (p : ExternalAddress → Bool) (es : List ExternalAddress) (other : String)
    → chosen other (keep p es) ≡ text_or (find p es) other
chosen-keep p [] other = refl
chosen-keep p (e ∷ es) other = elim (Bool-cases (p e)) [
  | inl t ↦ rw t refl
  | inr f ↦ rw f (chosen-keep p es other)
]

chosen-or_all :
    (es all : List ExternalAddress) (other : String)
    → chosen other (or_all es all) ≡ chosen (chosen other all) es
chosen-or_all [] all other = refl
chosen-or_all (e ∷ es) all other = refl

keep-keep :
    (p q : ExternalAddress → Bool) (es : List ExternalAddress)
    → keep p (keep q es) ≡ keep (λ e. q e && p e) es
keep-keep p q [] = refl
keep-keep p q (e ∷ es) = ground (arith, keep-keep p q es)

filtered-best :
    (addresses : List ExternalAddress) (network port local_addr : String)
    → let filtered = filter_by_network network addresses in
      chosen local_addr (or_all (filter_by_port port filtered) filtered)
      ≡ best addresses network port local_addr
unfolding filter_by_network filter_by_port
filtered-best addresses network port local_addr =
    let filtered = keep (is_on network) addresses in
    chosen-or_all (keep (λ e. e.port == port) filtered) filtered local_addr
    ∙ (ap (chosen (chosen local_addr filtered))
          (keep-keep (λ e. e.port == port) (is_on network) addresses)
        ∙ (chosen-keep (is_at network port) addresses (chosen local_addr filtered)
            ∙ ap (text_or (find (is_at network port) addresses))
                (chosen-keep (is_on network) addresses local_addr)))

-- GetEndpoints of a local address that splits into a host and a port tells one endpoint, without
-- security: the first external address in the network of the request that has the port, or else the
-- first in the network, or else the local address.
pub get_endpoints-best :
    (ops : Hosts) (addresses : List ExternalAddress) (cm : Option Bool)
    (local_addr host port : String)
    → ops.split_host_port local_addr ≡ some (host, port)
    → get_endpoints ops addresses cm local_addr
      ≡ record {
        uri = "coap://" ++ best addresses (get_network ops addresses cm host port) port local_addr;
        priority = 0;
      }
        ∷ []
unfolding get_endpoints
get_endpoints-best ops addresses cm local_addr host port s =
    ap (endpoints_at ops addresses cm local_addr) s
    ∙ ap (λ t. record { uri = "coap://" ++ t; priority = 0 } ∷ [])
        (filtered-best addresses (get_network ops addresses cm host port) port local_addr)
