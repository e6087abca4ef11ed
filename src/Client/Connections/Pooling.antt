-- ===== src/Client/Connections/Pooling.antt =====
-- The connections of client/core/device.go: none is alive outside the map, and what a connect leaves.
use device.Common.{
  ℕ, suc, ◌<◌, String, ◌==◌, ◌≡◌, ◌≢◌, refl, sym, ap, ◌∙◌, subst, Bool, true, false, Option, none,
  some, List, eqb, eqb_iff, arith, eq_iff, Option-cases, Bool-cases, inl, inr,
}
use device.Common.Dict.{lookup, store, remove, lookup-store, lookup-remove}
use device.Common.Eq.{string_eq}
use device.Client.Connections.{
  Device, created, load_or_create, living, dial_new, dial_object, dial, same_client, removes,
  remove_found, remove_conn, register, connect_object, connect_to_url, lose, close_handler,
}

-- A connection is in the map, under the address that its close handler has.
pub record Kept (d : Device) (c : ℕ) : Type 0 where
  pub url : String
  pub object : ℕ
  pub registered : d.handlers c ≡ some (url, object)
  pub found : lookup url d.conn ≡ some object
  pub holds : (d.objects object).client ≡ some c

pub record Inv (d : Device) : Type 0 where
  pub kept : (c : ℕ) → d.alive c ≡ true → Kept d c
  pub bound : (url : String) (n : ℕ) → lookup url d.conn ≡ some n → n < d.next_object

pub record Created (url : String) (r : ℕ × Device) : Type 0 where
  pub inv : Inv r.1
  pub found : lookup url r.1.conn ≡ some r.0

bound_new :
    (url : String) (d : Device)
    → Inv d
    → (url' : String) (n : ℕ) → lookup url' (store url d.next_object d.conn) ≡ some n
    → n < suc d.next_object
bound_new url d i url' n h =
    ground (arith, h, lookup-store url url' d.next_object d.conn, i.bound url' n)

Kept-new :
    (url : String) (d : Device)
    → lookup url d.conn ≡ none
    → Inv d
    → (c : ℕ) → d.alive c ≡ true
    → Kept (created none url d).1 c
Kept-new url d e i c a =
    let k = i.kept c a in
    record {
      url = k.url;
      object = k.object;
      registered = k.registered;
      found = ground (
        arith,
        e,
        k.found,
        lookup-store url k.url d.next_object d.conn,
        eq_iff url k.url,
        ap (λ u. lookup u d.conn) {x = url} {y = k.url},
      );
      holds = ground (arith, k.holds, i.bound k.url k.object k.found);
    }

load_or_create-Created : (url : String) (d : Device) → Inv d → Created url (load_or_create url d)
unfolding load_or_create
load_or_create-Created url d i = elim (Option-cases (lookup url d.conn)) [
  | inr (n, e) ↦ rw e (record { inv = i; found = e })
  | inl e ↦ rw e (record {
    inv = record { kept = Kept-new url d e i; bound = bound_new url d i };
    found = ground (arith, lookup-store url url d.next_object d.conn, eq_iff url url);
  })
]

-- The object holds no connection that is alive.
abbrev IsIdle : ℕ → Device → Type 0
IsIdle n d = (c : ℕ) → d.alive c ≡ true → (d.objects n).client ≢ some c

same_client-eq : (o p : Option ℕ) (c : ℕ) → same_client o p ≡ true → o ≡ some c → p ≡ some c
same_client-eq none p c s e = absurd (ground arith)
same_client-eq (some a) none c s e = absurd (ground arith)
same_client-eq (some a) (some b) c s e = ground (arith, s, e)

removes-IsIdle :
    (m n : ℕ) (d : Device)
    → IsIdle n d
    → removes (d.objects m) (d.objects n) (eqb m n) ≡ true
    → IsIdle m d
removes-IsIdle m n d h r c a e = elim (Bool-cases (eqb m n)) [
  | inl t ↦ h c a (subst (λ x. (d.objects x).client ≡ some c) ((eqb_iff m n).0 t) e)
  | inr f ↦
      h c a (same_client-eq (d.objects m).client (d.objects n).client c (ground (arith, r, f)) e)
]

same_object :
    (url url' : String) (m n : ℕ) (conn : List (String × ℕ))
    → (url == url') ≡ true
    → lookup url conn ≡ some m
    → lookup url' conn ≡ some n
    → m ≡ n
same_object url url' m n conn t e e' =
    ground (arith, e, e', ap (λ u. lookup u conn) ((eq_iff url url').0 t))

unmapped :
    (url : String) (m : ℕ) (d : Device)
    → lookup url d.conn ≡ some m
    → IsIdle m d
    → (c : ℕ) → d.alive c ≡ true
    → Kept d c
    → Kept (record d { conn = remove url d.conn }) c
unmapped url m d e h c a k = elim (Bool-cases (url == k.url)) [
  | inl t ↦ absurd (
      h c a (
        subst (λ n. (d.objects n).client ≡ some c)
          (sym (same_object url k.url m k.object d.conn t e k.found)) k.holds))
  | inr f ↦ record {
    url = k.url;
    object = k.object;
    registered = k.registered;
    found = lookup-remove url k.url d.conn ∙ rw f k.found;
    holds = k.holds;
  }
]

unmapped-Inv :
    (url : String) (m : ℕ) (d : Device)
    → lookup url d.conn ≡ some m
    → IsIdle m d
    → Inv d
    → Inv (record d { conn = remove url d.conn })
unmapped-Inv url m d e h i = record {
  kept = λ c a. unmapped url m d e h c a (i.kept c a);
  bound = λ url' n l. i.bound url' n (ground (arith, l, lookup-remove url url' d.conn));
}

remove_found-Inv :
    (acquired : Bool) (url : String) (m n : ℕ) (d : Device)
    → lookup url d.conn ≡ some m
    → IsIdle n d
    → Inv d
    → Inv (remove_found (some m) acquired url n d)
remove_found-Inv false url m n d e h i = i
remove_found-Inv true url m n d e h i =
    elim (Bool-cases (removes (d.objects m) (d.objects n) (eqb m n))) [
      | inl t ↦ rw t (unmapped-Inv url m d e (removes-IsIdle m n d h t) i)
      | inr f ↦ rw f i
    ]

remove_conn-Inv :
    (acquired : Bool) (url : String) (n : ℕ) (d : Device)
    → IsIdle n d
    → Inv d
    → Inv (remove_conn acquired url n d)
unfolding remove_conn
remove_conn-Inv acquired url n d h i = elim (Option-cases (lookup url d.conn)) [
  | inl e ↦ rw e i
  | inr (m, e) ↦ rw e (remove_found-Inv acquired url m n d e h i)
]

living-none :
    (alive : ℕ → Bool) (o : Option ℕ) (c : ℕ) → living alive o ≡ none → alive c ≡ true → o ≢ some c
living-none alive none c l a e = absurd (ground arith)
living-none alive (some b) c l a e = absurd (ground (arith, l, a, e, ap (λ o. living alive o) e))

-- A dial that fails marks the object.
failed-Inv : (n : ℕ) (d : Device) → Inv d → Inv (dial_new false n d).1
failed-Inv n d i = record {
  kept = λ c a.
      let k = i.kept c a in
      record {
        url = k.url;
        object = k.object;
        registered = k.registered;
        found = k.found;
        holds = ground (
          arith,
          k.holds,
          eqb_iff k.object n,
          ap (λ m. (d.objects m).client) {x = k.object} {y = n},
        );
      };
  bound = i.bound;
}

failed-IsIdle : (n : ℕ) (d : Device) → IsIdle n d → IsIdle n (dial_new false n d).1
failed-IsIdle n d h c a e = h c a (ground (arith, e, eqb_iff n n))

Kept-beside :
    (url : String) (n : ℕ) (d : Device)
    → IsIdle n d
    → (c : ℕ) → eqb c d.next_client ≡ false
    → Kept d c
    → d.alive c ≡ true
    → Kept (register url n (dial_new true n d)).1 c
Kept-beside url n d h c f k a = record {
  url = k.url;
  object = k.object;
  registered = rw f k.registered;
  found = k.found;
  holds = elim (Bool-cases (eqb k.object n)) [
    | inl t ↦
        absurd
          (h c a (subst (λ m. (d.objects m).client ≡ some c) ((eqb_iff k.object n).0 t) k.holds))
    | inr g ↦ rw g k.holds
  ];
}

dialled-Inv :
    (url : String) (n : ℕ) (d : Device)
    → lookup url d.conn ≡ some n
    → IsIdle n d
    → Inv d
    → Inv (register url n (dial_new true n d)).1
dialled-Inv url n d e h i = record {
  kept = λ c a. elim (Bool-cases (eqb c d.next_client)) [
    | inl t ↦ record {
      url = url;
      object = n;
      registered = rw t refl;
      found = e;
      holds = ground (arith, eqb_iff n n, eqb_iff c d.next_client, t);
    }
    | inr f ↦ Kept-beside url n d h c f (i.kept c (ground (arith, a, f))) (ground (arith, a, f))
  ];
  bound = i.bound;
}

dial_new-Inv :
    (dials : Bool) (url : String) (n : ℕ) (d : Device)
    → lookup url d.conn ≡ some n
    → IsIdle n d
    → Inv d
    → Inv (register url n (dial_new dials n d)).1
dial_new-Inv true url n d e h i = dialled-Inv url n d e h i
dial_new-Inv false url n d e h i =
    remove_conn-Inv true url n (dial_new false n d).1 (failed-IsIdle n d h) (failed-Inv n d i)

idle_object-Inv :
    (dials : Bool) (url : String) (n : ℕ) (d : Device)
    → lookup url d.conn ≡ some n
    → IsIdle n d
    → Inv d
    → Inv (register url n (dial_object none dials n d)).1
idle_object-Inv dials url n d e h i = elim (Bool-cases (d.objects n).failed) [
  | inl t ↦ rw t (remove_conn-Inv true url n d h i)
  | inr f ↦ rw f (dial_new-Inv dials url n d e h i)
]

connect_object-Inv :
    (dials : Bool) (url : String) (n : ℕ) (d : Device)
    → lookup url d.conn ≡ some n
    → Inv d
    → Inv (connect_object dials url (n, d)).1
unfolding dial
connect_object-Inv dials url n d e i = elim (Option-cases (living d.alive (d.objects n).client)) [
  | inr (c, l) ↦ rw l i
  | inl l ↦
      rw l (idle_object-Inv dials url n d e (λ c. living-none d.alive (d.objects n).client c l) i)
]

pub connect_to_url-Inv :
    (dials : Bool) (url : String) (d : Device) → Inv d → Inv (connect_to_url dials url d).1
unfolding connect_to_url
connect_to_url-Inv dials url d i =
    let r = load_or_create-Created url d i in
    connect_object-Inv dials url (load_or_create url d).0 (load_or_create url d).1 r.found r.inv

lose-Inv : (c : ℕ) (d : Device) → Inv d → Inv (lose c d)
unfolding lose
lose-Inv c d i = record {
  kept = λ c' a.
      let k = i.kept c' (ground (arith, a)) in
      record {
        url = k.url;
        object = k.object;
        registered = k.registered;
        found = k.found;
        holds = k.holds;
      };
  bound = i.bound;
}

pub close_handler-Inv :
    (acquired : Bool) (c : ℕ) (d : Device)
    → d.alive c ≡ true
    → Inv d
    → Inv (close_handler acquired c (lose c d))
unfolding close_handler lose
close_handler-Inv acquired c d a i =
    let k = i.kept c a in
    rw k.registered (
      remove_conn-Inv acquired k.url k.object (lose c d)
        (λ c' a' e. ground (arith, a', e, k.holds, eqb_iff c' c)) (lose-Inv c d i))
