-- ===== src/Net/Duplicates/Once.antt =====
-- A message that ServeCOAP of bridge/net/network.go has seen is dropped while its ID is remembered.
use device.Common.{
  ℕ, ◌+◌, ◌≤◌, ◌≡◌, refl, sym, ap, ◌∙◌, subst, Bool, true, false, not, ◌&&◌, Option, none, some,
  List, [], ◌∷◌, All, eqb, eqb_iff, arith, Bool-cases, inl, inr,
}
use device.Net.Duplicates.{
  Cache, IsCache, Message, dropped, serve_id, serve_coap, Event, received, cleaned, time, step, run,
}

module _ {C : Type 0} (cache : Cache C) (laws : IsCache cache) (lifetime : ℕ) where
  dropped-cache : (now : ℕ) (r : (ℕ × Bool) × C) → (dropped cache lifetime now r).1 ≡ r.1
  dropped-cache now r = refl

  load-remembers :
      (now id other new valid : ℕ) (c : C)
      → cache.valid_until id c ≡ some valid
      → now ≤ valid
      → cache.valid_until id (cache.load_or_store now other new c).1 ≡ some valid
  load-remembers now id other new valid c v l = elim (Bool-cases (eqb other id)) [
    | inl t ↦
        subst (λ k. cache.valid_until id (cache.load_or_store now k new c).1 ≡ some valid)
          (sym ((eqb_iff other id).0 t)) (laws.loads now id new valid c v l).1
    | inr f ↦ laws.others now other new id c (λ e. absurd (ground (arith, f, e))) ∙ v
  ]

  serve-remembers :
      (now id valid : ℕ) (confirmable : Bool) (o : Option ℕ) (c : C)
      → cache.valid_until id c ≡ some valid
      → now ≤ valid
      → cache.valid_until id (serve_id cache lifetime now confirmable o c).1 ≡ some valid
  serve-remembers now id valid confirmable none c v l = v
  serve-remembers now id valid true (some other) c v l = v
  serve-remembers now id valid false (some other) c v l =
      load-remembers now id other (now + lifetime) valid c v l

  step-remembers :
      (e : Event) (id valid : ℕ) (c : C)
      → cache.valid_until id c ≡ some valid
      → time e ≤ valid
      → cache.valid_until id (step cache lifetime e c) ≡ some valid
  unfolding step serve_coap
  step-remembers (received now m) id valid c v l =
      serve-remembers now id valid m.confirmable m.message_id c v l
  step-remembers (cleaned now) id valid c v l = laws.cleans now id valid c v l

  run-remembers :
      (es : List Event) (id valid : ℕ) (c : C)
      → cache.valid_until id c ≡ some valid
      → All (λ e. time e ≤ valid) es
      → cache.valid_until id (run cache lifetime es c) ≡ some valid
  unfolding run
  run-remembers [] id valid c v a = v
  run-remembers (e ∷ es) id valid c v a =
      run-remembers es id valid (step cache lifetime e c) (step-remembers e id valid c v a.0) a.1

  remembered_dropped :
      (now id valid : ℕ) (c : C)
      → cache.valid_until id c ≡ some valid
      → now ≤ valid
      → (serve_id cache lifetime now false (some id) c).0 ≡ false
  remembered_dropped now id valid c v l =
      ap (λ r. not (r.1 && not (cache.is_expired r.0 now)))
        (laws.loads now id (now + lifetime) valid c v l).0
      ∙ ap not (ap not (laws.lives now valid l))

  -- The first message with an ID that is not confirmable goes to the handler; until its lifetime is over,
  -- whatever other messages come and however often the cache is cleaned up, another such message with the
  -- ID does not.
  pub serve_coap-once :
      (now later id : ℕ) (es : List Event) (c : C)
      → cache.valid_until id c ≡ none
      → All (λ e. time e ≤ now + lifetime) es
      → later ≤ now + lifetime
      → let m : Message = record { message_id = some id; confirmable = false } in
        let first = serve_coap cache lifetime now m c in
        (first.0 ≡ true)
        × ((serve_coap cache lifetime later m (run cache lifetime es first.1)).0 ≡ false)
  unfolding serve_coap
  serve_coap-once now later id es c n a l =
      let s = laws.stores now id (now + lifetime) c n in
      let after = (cache.load_or_store now id (now + lifetime) c).1 in
      (
        ap (λ r. not (r.1 && not (cache.is_expired r.0 now))) s.0,
        remembered_dropped later id (now + lifetime) (run cache lifetime es after)
            (run-remembers es id (now + lifetime) after s.1 a) l,
      )
