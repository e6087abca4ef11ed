-- ===== src/Schema/Endpoints/Filters.antt =====
-- The endpoints of schema/link.go that a device offers: secured and unsecured ones.
use device.Common.{
  ℕ, String, ◌==◌, ◌≡◌, refl, ap, Bool, true, false, not, ◌&&◌, Option, none, some, List, [], ◌∷◌,
  ◌++◌, is_some, any, is_empty, eqb, arith, eq_iff, inl, inr, Bool-cases, Option-cases, subst, sym,
  append-nil,
}
use device.Schema.Link.{Endpoint, Policy, ResourceLink}
use device.Schema.Endpoints.{
  AddrOps, is_secured_scheme, is_unsecured_scheme, passes, get_endpoints_with_filter,
  filter_secure_endpoints, filter_unsecure_endpoints, get_addr, policy_endpoints, port_endpoint,
  or_device, patch_missing, patch_endpoint, tcp_scheme, udp_scheme, tcp_secure_scheme,
  udp_secure_scheme,
}

module _ {Addr : Type 0} (ops : AddrOps Addr) where
  not_both : (s : String) → is_unsecured_scheme s ≡ true → is_secured_scheme s ≡ false
  unfolding is_secured_scheme is_unsecured_scheme
  not_both s h = elim (Bool-cases (s == tcp_scheme)) [
    | inl e ↦ subst (λ x. is_secured_scheme x ≡ false) (sym ((eq_iff s tcp_scheme).0 e)) refl
    | inr e ↦
        subst (λ x. is_secured_scheme x ≡ false)
          (sym ((eq_iff s udp_scheme).0 (ground (arith, h, e)))) refl
  ]

  passes-apart :
      (o : Option Addr)
      → passes ops is_unsecured_scheme o ≡ true
      → passes ops is_secured_scheme o ≡ false
  passes-apart none h = refl
  passes-apart (some a) h = not_both (ops.scheme a) h

  -- No endpoint is among both the secured and the unsecured ones.
  filter_secure_endpoints-unsecure :
      (eps : List Endpoint) → filter_secure_endpoints ops (filter_unsecure_endpoints ops eps) ≡ []
  unfolding filter_secure_endpoints filter_unsecure_endpoints get_endpoints_with_filter
  filter_secure_endpoints-unsecure [] = refl
  filter_secure_endpoints-unsecure (ep ∷ eps) =
      elim (Bool-cases (passes ops is_unsecured_scheme (ops.parse ep.uri))) [
        | inl e ↦ rw (e, passes-apart (ops.parse ep.uri) e) (filter_secure_endpoints-unsecure eps)
        | inr e ↦ rw e (filter_secure_endpoints-unsecure eps)
      ]

  abbrev pub has_scheme : String → List Endpoint → Bool
  has_scheme scheme eps = any (λ ep. passes ops (λ s. s == scheme) (ops.parse ep.uri)) eps

  abbrev pub all_parse : List Endpoint → Bool
  all_parse eps = not (any (λ ep. not (is_some (ops.parse ep.uri))) eps)

  -- GetAddr of a scheme, where all endpoints parse, returns an address exactly if an endpoint has the
  -- scheme, and then one of that scheme.
  get_addr_lem :
      (eps : List Endpoint) (scheme : String)
      → all_parse eps ≡ true
      → (is_some (get_addr ops eps scheme) ≡ has_scheme scheme eps)
        × (passes ops (λ s. s == scheme) (get_addr ops eps scheme)
            ≡ is_some (get_addr ops eps scheme))
  unfolding get_addr
  get_addr_lem [] scheme h = (refl, refl)
  get_addr_lem (ep ∷ eps) scheme h = elim (Option-cases (ops.parse ep.uri)) [
    | inl e ↦ ground (arith, ap is_some e)
    | inr (u, e) ↦ elim (Bool-cases (ops.scheme u == scheme)) [
      | inl t ↦ rw (e, t) (refl, t)
      | inr t ↦ rw (e, t) (get_addr_lem eps scheme (ground (arith, h, ap is_some e)))
    ]
  ]

  -- The text of a URL with the scheme and the address parses to an address of this scheme.
  abbrev pub ParsesBack : String → Addr → Type 0
  ParsesBack scheme a =
      (b : Addr) × (ops.parse (ops.uri scheme a) ≡ some b) × (ops.scheme b ≡ scheme)

  port_endpoint-secured :
      (scheme : String) (port : ℕ) (addr : Addr) (rest : List Endpoint)
      → (eqb port 0 ≡ false → ParsesBack scheme (ops.set_port port addr))
      → is_unsecured_scheme scheme ≡ false
      → filter_unsecure_endpoints ops rest ≡ []
      → filter_unsecure_endpoints ops (port_endpoint ops scheme port addr ++ rest) ≡ []
  unfolding filter_unsecure_endpoints get_endpoints_with_filter
  port_endpoint-secured scheme port addr rest law n e = elim (Bool-cases (eqb port 0)) [
    | inl z ↦ rw z e
    | inr z ↦ let l = law z in rw (z, l.1, l.2, n) e
  ]

  or_device-some :
      (eps : List Endpoint) (addr : Addr) (device_endpoints : List Endpoint)
      → is_empty eps ≡ false
      → or_device ops eps addr device_endpoints ≡ eps
  or_device-some [] addr device_endpoints h = cc
  or_device-some (ep ∷ eps) addr device_endpoints h = refl

  policy_endpoints-some :
      (p : Policy) (addr : Addr)
      → (eqb p.udp_port 0 && eqb p.tcp_tls_port 0) ≡ false
      → is_empty (policy_endpoints ops p addr) ≡ false
  policy_endpoints-some p addr h = ground arith

  -- A secured link with no endpoints of its own, whose policy has a port for UDP or for TCP with TLS
  -- and none for plain TCP, gets no unsecured endpoint from PatchEndpoint: so it is if, for each of the
  -- two ports that is not 0, the text of the URL of the scheme coaps, or coaps+tcp, and of the address
  -- with this port parses to an address of that scheme.
  pub patch_endpoint-secured :
      (addr : Addr) (device_endpoints : List Endpoint) (r : ResourceLink) (p : Policy)
      → (eqb p.udp_port 0 ≡ false → ParsesBack udp_secure_scheme (ops.set_port p.udp_port addr))
      → (eqb p.tcp_tls_port 0 ≡ false
          → ParsesBack tcp_secure_scheme (ops.set_port p.tcp_tls_port addr))
      → r.endpoints ≡ []
      → r.policy ≡ some p
      → p.secured ≡ some true
      → p.tcp_port ≡ 0
      → (eqb p.udp_port 0 && eqb p.tcp_tls_port 0) ≡ false
      → filter_unsecure_endpoints ops (patch_endpoint ops addr device_endpoints r).endpoints ≡ []
  unfolding filter_unsecure_endpoints get_endpoints_with_filter is_unsecured_scheme patch_endpoint
      patch_missing
  patch_endpoint-secured addr device_endpoints r p law_udp law_tcp e q s t n =
      rw
        (
          e,
          q,
          or_device-some (policy_endpoints ops p addr) addr device_endpoints
              (policy_endpoints-some p addr n),
          s,
          t,
        )
        (port_endpoint-secured udp_secure_scheme p.udp_port addr
          (port_endpoint ops tcp_secure_scheme p.tcp_tls_port addr) law_udp refl
          (subst (λ eps. filter_unsecure_endpoints ops eps ≡ []) (append-nil _)
            (port_endpoint-secured tcp_secure_scheme p.tcp_tls_port addr [] law_tcp refl refl)))
