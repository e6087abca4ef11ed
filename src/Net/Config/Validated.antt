-- ===== src/Net/Config/Validated.antt =====
-- What a configuration that Validate of bridge/net/config.go accepts is like.
use device.Common.{
  ℕ, ◌<◌, String, ◌==◌, ◌≡◌, refl, sym, ap, ◌∙◌, subst, true, false, ◌||◌, Option, none, some, List,
  [], ◌∷◌, is_empty, arith, if◌then◌else◌, Option-cases, Bool-cases, inl, inr, ◌⊎◌,
}
use device.Common.Eq.{ℤ, pos, eqz}
use device.Net.Config.{
  ExternalAddress, Resolver, Config, default_max_message_size, resolved, validate_external_address,
  cons_valid, validate_all, or_default, or_default_lifetime, with_addresses, validate,
}

-- What stands in the configuration for an address in text.
pub record IsResolved (ops : Resolver) (addr : String) (e : ExternalAddress) : Type 0 where
  pub host : (e.host == "") ≡ false
  pub split : ops.split_host_port addr ≡ some (e.host, e.port)
  pub port : ops.parses_port e.port ≡ true
  pub network :
      ((e.network ≡ "udp4") × (ops.resolves4 addr ≡ true))
      ⊎ ((e.network ≡ "udp6") × (ops.resolves4 addr ≡ false) × (ops.resolves6 addr ≡ true))

abbrev pub Resolves : Resolver → List String → List ExternalAddress → Type 0
Resolves ops [] [] = Unit
Resolves ops (a ∷ addrs) (e ∷ es) = IsResolved ops a e × Resolves ops addrs es
Resolves ops _ _ = ⊥

resolved-tests :
    (ops : Resolver) (addr host port : String) (e : ExternalAddress)
    → resolved ops addr (some (host, port)) ≡ some e
    → ((host == "") ≡ false)
      × (ops.parses_port port ≡ true)
      × ((ops.resolves4 addr || ops.resolves6 addr) ≡ true)
      × (record {
        host = host;
        port = port;
        network = if ops.resolves4 addr then "udp4" else "udp6";
      }
          ≡ e)
resolved-tests ops addr host port e h = ground (arith, h)

resolved-IsResolved :
    (ops : Resolver) (addr host port : String) (e : ExternalAddress)
    → ops.split_host_port addr ≡ some (host, port)
    → resolved ops addr (some (host, port)) ≡ some e
    → IsResolved ops addr e
resolved-IsResolved ops addr host port e s h =
    let t = resolved-tests ops addr host port e h in
    subst (IsResolved ops addr) t.3 (record {
      host = t.0;
      split = s;
      port = t.1;
      network = elim (Bool-cases (ops.resolves4 addr)) [
        | inl a ↦ inl (rw a refl, a)
        | inr b ↦ inr (rw b refl, b, ground (arith, t.2, b))
      ];
    })

validate_external_address-IsResolved :
    (ops : Resolver) (addr : String) (e : ExternalAddress)
    → validate_external_address ops addr ≡ some e
    → IsResolved ops addr e
unfolding validate_external_address
validate_external_address-IsResolved ops addr e h = elim (Option-cases (ops.split_host_port addr)) [
  | inl n ↦ absurd (ground (arith, h, ap (resolved ops addr) n))
  | inr ((host, port), s) ↦
      resolved-IsResolved ops addr host port e s (sym (ap (resolved ops addr) s) ∙ h)
]

cons_valid-some :
    {A : Type 0} (x : Option A) (xs : Option (List A)) (ys : List A)
    → cons_valid x xs ≡ some ys
    → (y : A) × (zs : List A) × (x ≡ some y) × (xs ≡ some zs) × (ys ≡ y ∷ zs)
cons_valid-some none xs ys h = absurd (ground (arith, h))
cons_valid-some (some e) none ys h = absurd (ground (arith, h))
cons_valid-some (some e) (some es) ys h = (e, es, refl, refl, ground (arith, h))

validate_all-Resolves :
    (ops : Resolver) (addrs : List String) (es : List ExternalAddress)
    → validate_all ops addrs ≡ some es
    → Resolves ops addrs es
unfolding validate_all
validate_all-Resolves ops [] es h = ground (arith, h)
validate_all-Resolves ops (a ∷ addrs) es h =
    let c = cons_valid-some (validate_external_address ops a) (validate_all ops addrs) es h in
    subst (Resolves ops (a ∷ addrs)) (sym c.4)
      (validate_external_address-IsResolved ops a c.0 c.2, validate_all-Resolves ops addrs c.1 c.3)

abbrev completed : Config → List ExternalAddress → Config
completed cfg es = record {
  external_addresses = cfg.external_addresses;
  max_message_size = or_default default_max_message_size cfg.max_message_size;
  deduplication_lifetime = or_default_lifetime (pos 8000000000) cfg.deduplication_lifetime;
  external_addresses_port = es;
}

with_addresses-some :
    (cfg cfg' : Config) (o : Option (List ExternalAddress))
    → with_addresses cfg o ≡ some cfg'
    → (es : List ExternalAddress) × (o ≡ some es) × (completed cfg es ≡ cfg')
with_addresses-some cfg cfg' none h = absurd (ground (arith, h))
with_addresses-some cfg cfg' (some es) h = (es, refl, ground (arith, h))

or_default-positive : (default n : ℕ) → 0 < default → 0 < or_default default n
or_default-positive default n h = ground (arith, h)

or_default-again :
    (default n : ℕ) → or_default default (or_default default n) ≡ or_default default n
or_default-again default n = ground arith

or_default_lifetime-nonzero :
    (default t : ℤ)
    → eqz default (pos 0) ≡ false
    → eqz (or_default_lifetime default t) (pos 0) ≡ false
or_default_lifetime-nonzero default t h = ground (arith, h)

or_default_lifetime-again :
    (default t : ℤ)
    → or_default_lifetime default (or_default_lifetime default t) ≡ or_default_lifetime default t
or_default_lifetime-again default t = ground arith

completed-again :
    (cfg : Config) (es : List ExternalAddress) → completed (completed cfg es) es ≡ completed cfg es
completed-again cfg es =
    rw
      (
        or_default-again default_max_message_size cfg.max_message_size,
        or_default_lifetime-again (pos 8000000000) cfg.deduplication_lifetime,
      )
      refl

validate-completed :
    (ops : Resolver) (cfg : Config) (es : List ExternalAddress)
    → is_empty cfg.external_addresses ≡ false
    → validate_all ops cfg.external_addresses ≡ some es
    → validate ops (completed cfg es) ≡ some (completed cfg es)
unfolding validate
validate-completed ops cfg es n v = rw (n, v) (ap some (completed-again cfg es))

validate-some :
    (ops : Resolver) (cfg cfg' : Config)
    → validate ops cfg ≡ some cfg'
    → (is_empty cfg.external_addresses ≡ false)
      × (with_addresses cfg (validate_all ops cfg.external_addresses) ≡ some cfg')
unfolding validate
validate-some ops cfg cfg' h = ground (arith, h)

-- A configuration that Validate accepts has one resolved address for each address in text, in their
-- order, and at least one; its message size is positive and its lifetime of message IDs is not zero,
-- though it may be negative; and Validate accepts the result too and leaves it as it is.
pub validate_lem :
    (ops : Resolver) (cfg cfg' : Config)
    → validate ops cfg ≡ some cfg'
    → Resolves ops cfg.external_addresses cfg'.external_addresses_port
      × (is_empty cfg.external_addresses ≡ false)
      × (0 < cfg'.max_message_size)
      × (eqz cfg'.deduplication_lifetime (pos 0) ≡ false)
      × (validate ops cfg' ≡ some cfg')
validate_lem ops cfg cfg' h =
    let v = validate-some ops cfg cfg' h in
    let w = with_addresses-some cfg cfg' (validate_all ops cfg.external_addresses) v.1 in
    subst
      (λ c.
        Resolves ops cfg.external_addresses c.external_addresses_port
        × (is_empty cfg.external_addresses ≡ false)
        × (0 < c.max_message_size)
        × (eqz c.deduplication_lifetime (pos 0) ≡ false)
        × (validate ops c ≡ some c))
      w.2
      (
        validate_all-Resolves ops cfg.external_addresses w.0 w.1,
        v.0,
        or_default-positive default_max_message_size cfg.max_message_size (omega arith),
        or_default_lifetime-nonzero (pos 8000000000) cfg.deduplication_lifetime refl,
        validate-completed ops cfg w.0 v.0 w.1,
      )
