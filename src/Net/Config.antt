-- ===== src/Net/Config.antt =====
-- bridge/net/config.go: the addresses under which the bridge is reached, and Validate. The names of
-- the networks are "udp4" and "udp6".
pub mod Validated
use device.Common.{
  ℕ, String, ◌==◌, Bool, true, false, not, ◌&&◌, ◌||◌, Option, none, some, List, [], ◌∷◌, ◌*◌, eqb,
  is_empty, keep, if◌then◌else◌,
}
use device.Common.Eq.{ℤ, pos, eqz}

-- externalAddressPort
pub record ExternalAddress : Type 0 where
  pub host : String
  pub port : String
  pub network : String

-- filterByNetwork
unfoldable pub filter_by_network : String → List ExternalAddress → List ExternalAddress
filter_by_network network = keep (λ e. e.network == network)

-- filterByPort
unfoldable pub filter_by_port : String → List ExternalAddress → List ExternalAddress
filter_by_port port = keep (λ e. e.port == port)

-- The functions of net and strconv: SplitHostPort, ParseUint of 16 bits, and whether ResolveUDPAddr
-- finds an address in the network udp4, and in udp6.
pub record Resolver : Type 0 where
  pub split_host_port : String → Option (String × String)
  pub parses_port : String → Bool
  pub resolves4 : String → Bool
  pub resolves6 : String → Bool

-- Config; the lifetime is a time.Duration, in nanoseconds, and may be negative.
pub record Config : Type 0 where
  pub external_addresses : List String
  pub max_message_size : ℕ  -- uint32
  pub deduplication_lifetime : ℤ  -- int64
  pub external_addresses_port : List ExternalAddress

-- DefaultMaxMessageSize
abbrev pub default_max_message_size : ℕ
default_max_message_size = 2 * 1024 * 1024

abbrev pub resolved : Resolver → String → Option (String × String) → Option ExternalAddress
resolved ops addr none = none
resolved ops addr (some (host, port)) =
    if (host == "") || not (ops.parses_port port)
    then none
    else if not (ops.resolves4 addr) && not (ops.resolves6 addr)
    then none
    else some (record {
      host = host;
      port = port;
      network = if ops.resolves4 addr then "udp4" else "udp6";
    })

-- validateExternalAddress
unfoldable pub validate_external_address : Resolver → String → Option ExternalAddress
validate_external_address ops addr = resolved ops addr (ops.split_host_port addr)

abbrev pub cons_valid {ℓ} : {A : Type ℓ} → Option A → Option (List A) → Option (List A)
cons_valid none rest = none
cons_valid (some e) none = none
cons_valid (some e) (some es) = some (e ∷ es)

unfoldable pub validate_all : Resolver → List String → Option (List ExternalAddress)
validate_all ops [] = some []
validate_all ops (a ∷ addrs) = cons_valid (validate_external_address ops a) (validate_all ops addrs)

abbrev pub or_default : ℕ → ℕ → ℕ
or_default default n = if eqb n 0 then default else n

abbrev pub or_default_lifetime : ℤ → ℤ → ℤ
or_default_lifetime default t = if eqz t (pos 0) then default else t

abbrev pub with_addresses : Config → Option (List ExternalAddress) → Option Config
with_addresses cfg none = none
with_addresses cfg (some es) = some (record {
  external_addresses = cfg.external_addresses;
  max_message_size = or_default default_max_message_size cfg.max_message_size;
  deduplication_lifetime = or_default_lifetime (pos 8000000000) cfg.deduplication_lifetime;
  external_addresses_port = es;
})

-- Validate; its errors are `none`.
unfoldable pub validate : Resolver → Config → Option Config
validate ops cfg =
    if is_empty cfg.external_addresses
    then none
    else with_addresses cfg (validate_all ops cfg.external_addresses)
