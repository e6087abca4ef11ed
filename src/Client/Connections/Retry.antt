-- ===== src/Client/Connections/Retry.antt =====
-- What a connect of client/core/device.go leaves: after an error, and for the next connect.
use device.Common.{
  ℕ, String, ◌==◌, ◌≡◌, sym, ap, ◌∙◌, Bool, true, false, ◌||◌, Option, none, some, List, [], ◌∷◌,
  eqb_iff, if◌then◌else◌, arith, eq_iff, Option-cases, Bool-cases, inl, inr,
}
use device.Common.Dict.{lookup, lookup-store}
use device.Common.Eq.{string_eq}
use device.Schema.Link.{Endpoint}
use device.Schema.Endpoints.{AddrOps}
use device.Client.Connections.{
  Device, created, load_or_create, dial_failed, living, dial_new, dial_object, dial, Connected,
  connected, connect_failed, register, connect_object, connect_to_url,
}

load_or_create-found :
    (url : String) (d : Device)
    → lookup url (load_or_create url d).1.conn ≡ some (load_or_create url d).0
unfolding load_or_create
load_or_create-found url d = elim (Option-cases (lookup url d.conn)) [
  | inr (n, e) ↦ rw e e
  | inl e ↦ rw e (ground (arith, lookup-store url url d.next_object d.conn, eq_iff url url))
]

abbrev is_failed : Connected → Bool
is_failed connect_failed = true
is_failed _ = false

-- The connection that a connect returned.
abbrev client_of : Connected → Option ℕ
client_of (connected url c) = some c
client_of connect_failed = none

record Ready (d : Device) (url : String) (n c : ℕ) : Type 0 where
  found : lookup url d.conn ≡ some n
  lives : living d.alive (d.objects n).client ≡ some c

Ready-again :
    (dials : Bool) (url : String) (n c : ℕ) (d : Device)
    → Ready d url n c
    → connect_to_url dials url d ≡ (connected url c, d)
unfolding connect_to_url load_or_create dial
Ready-again dials url n c d r =
    ap (λ o. connect_object dials url (created o url d)) r.found
    ∙ ap (λ o. register url n (dial_object o dials n d)) r.lives

dialled-Ready :
    (dials : Bool) (url : String) (n c : ℕ) (d : Device)
    → lookup url d.conn ≡ some n
    → (d.objects n).failed ≡ false
    → client_of (register url n (dial_object none dials n d)).0 ≡ some c
    → Ready (register url n (dial_object none dials n d)).1 url n c
dialled-Ready false url n c d e f h = absurd (
    ground (
      arith,
      h,
      ap (λ b. client_of (register url n (if b then (dial_failed, d) else dial_new false n d)).0) f,
    ))
dialled-Ready true url n c d e f h = rw f (record {
  found = e;
  lives = ground (
    arith,
    eqb_iff n n,
    eqb_iff d.next_client d.next_client,
    sym (
          ap (λ b. client_of (register url n (if b then (dial_failed, d) else dial_new true n d)).0)
            f)
        ∙ h,
  );
})

idle-Ready :
    (dials : Bool) (url : String) (n c : ℕ) (d : Device)
    → lookup url d.conn ≡ some n
    → client_of (register url n (dial_object none dials n d)).0 ≡ some c
    → Ready (register url n (dial_object none dials n d)).1 url n c
idle-Ready dials url n c d e h = elim (Bool-cases (d.objects n).failed) [
  | inr f ↦ dialled-Ready dials url n c d e f h
  | inl t ↦ absurd (
      ground (
        arith,
        h,
        ap (λ b. client_of (register url n (if b then (dial_failed, d) else dial_new dials n d)).0)
            t,
      ))
]

connect_object-Ready :
    (dials : Bool) (url : String) (n c : ℕ) (d : Device)
    → lookup url d.conn ≡ some n
    → client_of (connect_object dials url (n, d)).0 ≡ some c
    → Ready (connect_object dials url (n, d)).1 url n c
unfolding dial
connect_object-Ready dials url n c d e h =
    elim (Option-cases (living d.alive (d.objects n).client)) [
      | inr (b, l) ↦ rw l (record {
        found = e;
        lives = l ∙ (sym (ap (λ o. client_of (register url n (dial_object o dials n d)).0) l) ∙ h);
      })
      | inl l ↦ rw l (
          idle-Ready dials url n c d e
            (sym (ap (λ o. client_of (register url n (dial_object o dials n d)).0) l) ∙ h))
    ]

-- A connect that succeeds is reused by the next connect to the address, which dials nothing.
connect_to_url-again :
    (dials dials' : Bool) (url url' : String) (c : ℕ) (d : Device)
    → (connect_to_url dials url d).0 ≡ connected url' c
    → connect_to_url dials' url (connect_to_url dials url d).1
      ≡ (connected url c, (connect_to_url dials url d).1)
unfolding connect_to_url
connect_to_url-again dials dials' url url' c d h =
    let r = load_or_create url d in
    Ready-again dials' url r.0 c (connect_object dials url r).1
      (connect_object-Ready dials url r.0 c r.1 (load_or_create-found url d) (ap client_of h))

module _ {Addr : Type 0} (ops : AddrOps Addr) where
  -- The address of an endpoint is this one.
  abbrev has_url : String → Option Addr → Bool
  has_url u none = false
  has_url u (some addr) = ops.url addr == u

  abbrev pub tried : String → List Endpoint → Bool
  tried u [] = false
  tried u (e ∷ es) = has_url u (ops.parse e.uri) || tried u es
