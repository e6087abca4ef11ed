-- ===== src/Client/Cache/Permanent.antt =====
-- Devices of client/deviceCache.go that are stored for good, and those that are used.
use device.Common.{
  ℕ, ◌+◌, ◌≤◌, ◌<◌, String, ◌==◌, eq_iff, ◌≡◌, refl, sym, ap, ◌∙◌, Bool, true, false, not, Option,
  none, some, List, [], ◌∷◌, eqb, is_some, arith, if◌then◌else◌, Bool-cases, Option-cases, inl, inr,
}
use device.Common.Eq.{string_eq}
use device.Common.Dict.{lookup, store, lookup-store}
use device.Client.Cache.{
  Device, update_by, Element, is_over, is_expired, DeviceCache, get_next_expiration,
  device_is_stored_with_expiration, evict, check_expirations, put_element, seen, load, refreshed,
  get_device, stored, update_or_store, update_or_store_device,
  update_or_store_device_with_expiration, Event, got, stored_for_good, stored_for_time, cleaned,
  step, run,
}

abbrev pub is_permanent : Option Element → Bool
is_permanent none = false
is_permanent (some e) = not (is_some e.valid_until)

-- The device is in the cache without an end to its time.
abbrev pub IsPermanent : String → DeviceCache → Type 0
IsPermanent id c = is_permanent (lookup id c.devices) ≡ true

unexpired : (e : Element) (now : ℕ) → is_permanent (some e) ≡ true → is_expired now e ≡ false
unexpired e now h = elim (Option-cases e.valid_until) [
  | inl n ↦ ap (λ o. is_over o now) n
  | inr (v, n) ↦ absurd (ground (arith, h, ap is_some n))
]

evict-permanent :
    (now : ℕ) (id : String) (m : List (String × Element))
    → is_permanent (lookup id m) ≡ true
    → is_permanent (lookup id (evict now m)) ≡ true
unfolding lookup
evict-permanent now id [] h = h
evict-permanent now id ((j, e) ∷ m) h = ground (arith, h, evict-permanent now id m, unexpired e now)

put-IsPermanent :
    (id id' : String) (e : Element) (c : DeviceCache)
    → ((id' == id) ≡ true → is_permanent (some e) ≡ true)
    → IsPermanent id c
    → IsPermanent id (put_element id' e c)
put-IsPermanent id id' e c v h = elim (Bool-cases (id' == id)) [
  | inl t ↦ ap is_permanent (lookup-store id' id e c.devices) ∙ rw t (v t)
  | inr f ↦ ap is_permanent (lookup-store id' id e c.devices) ∙ rw f h
]

put_self-IsPermanent :
    (id : String) (e : Element) (c : DeviceCache)
    → is_permanent (some e) ≡ true
    → IsPermanent id (put_element id e c)
put_self-IsPermanent id e c h =
    ap is_permanent (lookup-store id id e c.devices) ∙ ground (arith, h, eq_iff id id)

no_time : (o : Option ℕ) → not (is_some (if is_some o then none else o)) ≡ true
no_time none = refl
no_time (some v) = refl

module _ (stale : Bool) where
  seen-permanent :
      (now : ℕ) (o : Option Element)
      → is_permanent o ≡ true
      → is_permanent (seen stale now o) ≡ true
  seen-permanent now none h = h
  seen-permanent now (some e) h = ground (arith, h, unexpired e now)

  -- What is loaded under the key of a permanent device.
  load-permanent :
      (now : ℕ) (id id' : String) (c : DeviceCache)
      → IsPermanent id c
      → (id' == id) ≡ true
      → is_permanent (load stale now id' c) ≡ true
  unfolding load
  load-permanent now id id' c h t =
      seen-permanent now (lookup id' c.devices)
        (ap (λ k. is_permanent (lookup k c.devices)) ((eq_iff id' id).0 t) ∙ h)

  refreshed-IsPermanent :
      (now : ℕ) (id id' : String) (o : Option Element) (c : DeviceCache)
      → ((id' == id) ≡ true → is_permanent o ≡ true)
      → IsPermanent id c
      → IsPermanent id (refreshed stale now id' o c).1
  unfolding device_is_stored_with_expiration
  refreshed-IsPermanent now id id' none c v h = h
  refreshed-IsPermanent now id id' (some e) c v h = elim (Bool-cases (is_some e.valid_until)) [
    | inr f ↦ rw f h
    | inl t ↦ rw t (
        put-IsPermanent id id' (record e { valid_until = get_next_expiration c.expiration now }) c
          (λ x. absurd (ground (arith, t, v x))) h)
  ]

  stored-IsPermanent :
      (id : String) (o : Option Element) (d : Device) (expiration : Option ℕ) (c : DeviceCache)
      → ((d.id == id) ≡ true → is_permanent o ≡ true)
      → IsPermanent id c
      → IsPermanent id (stored stale o d expiration c).1
  unfolding device_is_stored_with_expiration
  stored-IsPermanent id none d expiration c v h =
      put-IsPermanent id d.id (record { device = d; valid_until = expiration }) c
        (λ x. absurd (ground (arith, v x))) h
  stored-IsPermanent id (some e) d expiration c v h =
      put-IsPermanent id d.id
        (record {
          device = update_by e.device d;
          valid_until = if is_some e.valid_until then expiration else e.valid_until;
        })
        c (λ x. ground (arith, v x)) h

  step-IsPermanent :
      (id : String) (c : DeviceCache) (e : Event)
      → IsPermanent id c
      → IsPermanent id (step stale c e)
  unfolding step get_device update_or_store_device update_or_store_device_with_expiration
      update_or_store check_expirations
  step-IsPermanent id c (got now j) h =
      refreshed-IsPermanent now id j (load stale now j c) c (load-permanent now id j c h) h
  step-IsPermanent id c (stored_for_good now d) h =
      stored-IsPermanent id (load stale now d.id c) d none c (load-permanent now id d.id c h) h
  step-IsPermanent id c (stored_for_time now d) h =
      stored-IsPermanent id (load stale now d.id c) d (get_next_expiration c.expiration now) c
        (load-permanent now id d.id c h) h
  step-IsPermanent id c (cleaned now) h = evict-permanent now id c.devices h

  run-IsPermanent :
      (id : String) (es : List Event) (c : DeviceCache)
      → IsPermanent id c
      → IsPermanent id (run stale c es)
  unfolding run
  run-IsPermanent id [] c h = h
  run-IsPermanent id (e ∷ es) c h =
      run-IsPermanent id es (step stale c e) (step-IsPermanent id c e h)

  stored_for_good-IsPermanent :
      (o : Option Element) (d : Device) (c : DeviceCache)
      → IsPermanent d.id (stored stale o d none c).1
  unfolding device_is_stored_with_expiration
  stored_for_good-IsPermanent none d c =
      put_self-IsPermanent d.id (record { device = d; valid_until = none }) c refl
  stored_for_good-IsPermanent (some e) d c =
      put_self-IsPermanent d.id
        (record {
          device = update_by e.device d;
          valid_until = if is_some e.valid_until then none else e.valid_until;
        })
        c (no_time e.valid_until)

  -- A device that UpdateOrStoreDevice stored, also one that was there for a time, is in the cache without
  -- an end to its time, whatever devices are then asked for or stored, for good or for a time, and however
  -- often the cache is cleaned up.
  pub update_or_store_device-stays :
      (now : ℕ) (d : Device) (c : DeviceCache) (es : List Event)
      → IsPermanent d.id (run stale (update_or_store_device stale now d c).1 es)
  unfolding update_or_store_device update_or_store
  update_or_store_device-stays now d c es =
      run-IsPermanent d.id es (stored stale (load stale now d.id c) d none c).1
        (stored_for_good-IsPermanent (load stale now d.id c) d c)

abbrev expired_at : ℕ → Option Element → Bool
expired_at now none = false
expired_at now (some e) = is_expired now e

evict-keeps :
    (now : ℕ) (id : String) (e : Element) (m : List (String × Element))
    → lookup id m ≡ some e
    → is_expired now e ≡ false
    → lookup id (evict now m) ≡ some e
unfolding lookup
evict-keeps now id e [] h x = h
evict-keeps now id e ((j, f) ∷ m) h x = elim (Bool-cases (j == id)) [
  | inr n ↦ ground (arith, h, n, evict-keeps now id e m)
  | inl t ↦
      let same = sym (ap (λ b. if b then some f else lookup id m) t) ∙ h in
      let young = ap (expired_at now) same ∙ x in rw young (rw t same)
]

refreshed-timed :
    (stale : Bool) (now valid : ℕ) (id : String) (e : Element) (c : DeviceCache)
    → e.valid_until ≡ some valid
    → 0 < c.expiration
    → refreshed stale now id (some e) c
      ≡ (some e.device, put_element id (record e { valid_until = some (now + c.expiration) }) c)
unfolding device_is_stored_with_expiration get_next_expiration
refreshed-timed stale now valid id e c v x =
    let timed = ap is_some v in
    let some_time : eqb c.expiration 0 ≡ false = ground (arith, x) in rw (timed, some_time) refl

loaded_young :
    (stale : Bool) (now valid : ℕ) (id : String) (e : Element) (c : DeviceCache)
    → lookup id c.devices ≡ some e
    → e.valid_until ≡ some valid
    → now ≤ valid
    → load stale now id c ≡ some e
unfolding load
loaded_young stale now valid id e c h v l =
    let young : is_over (some valid) now ≡ false = ground (arith, l) in
    let young' = ap (λ o. is_over o now) v ∙ young in rw h (rw young' refl)

-- A device that is in the cache for a time and is asked for before it has expired, stays until the
-- expiration of the cache has passed from then, whatever clean-ups there are before.
get_device-refreshes :
    (stale : Bool) (now later valid : ℕ) (id : String) (e : Element) (c : DeviceCache)
    → lookup id c.devices ≡ some e
    → e.valid_until ≡ some valid
    → now ≤ valid
    → 0 < c.expiration
    → later ≤ now + c.expiration
    → ((get_device stale now id c).0 ≡ some e.device)
      × (lookup id (check_expirations later (get_device stale now id c).1).devices
          ≡ some (record e { valid_until = some (now + c.expiration) }))
unfolding get_device check_expirations
get_device-refreshes stale now later valid id e c h v l x y =
    let r =
      ap (λ o. refreshed stale now id o c) (loaded_young stale now valid id e c h v l)
      ∙ refreshed-timed stale now valid id e c v x in
    let e' = record e { valid_until = some (now + c.expiration) } in
    (
      ap (λ q. q.0) r,
      ap (λ q. lookup id (evict later q.1.devices)) r
          ∙ evict-keeps later id e' (store id e' c.devices)
              (lookup-store id id e' c.devices ∙ ground (arith, eq_iff id id)) (ground (arith, y)),
    )
