-- ===== src/Net/Duplicates.antt =====
-- bridge/net/network.go: ServeCOAP, which drops a message that comes twice, and the goroutine of New
-- that cleans the cache up. The cache is that of go-coap, an interface here.
pub mod Once
use device.Common.{
  ℕ, ◌+◌, ◌≤◌, ◌≡◌, ◌≢◌, Bool, true, false, not, ◌&&◌, Option, none, some, List, [], ◌∷◌,
  if◌then◌else◌,
}

-- coapCache.Cache with keys that are message IDs. An element is its ValidUntil. `load_or_store` has the
-- time, the key and the new element, and returns the element that is in the cache and whether it was
-- there; `valid_until` is the element of a key.
pub record Cache (C : Type 0) : Type 0 where
  pub load_or_store : ℕ → ℕ → ℕ → C → (ℕ × Bool) × C
  pub check_expirations : ℕ → C → C
  pub is_expired : ℕ → ℕ → Bool
  pub valid_until : ℕ → C → Option ℕ

-- What the code relies on: an element that has not expired is loaded and stays, a key that is not there
-- is stored, other keys are left alone, and a clean-up keeps what has not expired.
pub record IsCache {C : Type 0} (cache : Cache C) : Type 0 where
  pub lives : (now valid : ℕ) → now ≤ valid → cache.is_expired valid now ≡ false
  pub loads :
      (now id new valid : ℕ) (c : C)
      → cache.valid_until id c ≡ some valid
      → now ≤ valid
      → ((cache.load_or_store now id new c).0 ≡ (valid, true))
        × (cache.valid_until id (cache.load_or_store now id new c).1 ≡ some valid)
  pub stores :
      (now id new : ℕ) (c : C)
      → cache.valid_until id c ≡ none
      → ((cache.load_or_store now id new c).0 ≡ (new, false))
        × (cache.valid_until id (cache.load_or_store now id new c).1 ≡ some new)
  pub others :
      (now id new other : ℕ) (c : C)
      → id ≢ other
      → cache.valid_until other (cache.load_or_store now id new c).1 ≡ cache.valid_until other c
  pub cleans :
      (now id valid : ℕ) (c : C)
      → cache.valid_until id c ≡ some valid
      → now ≤ valid
      → cache.valid_until id (cache.check_expirations now c) ≡ some valid

-- Of a message what ServeCOAP reads: its ID where that is not negative, and whether it is confirmable.
pub record Message : Type 0 where
  pub message_id : Option ℕ
  pub confirmable : Bool

-- The lifetime is one that is not negative.
module _ {C : Type 0} (cache : Cache C) (lifetime : ℕ) where
  abbrev pub dropped : ℕ → (ℕ × Bool) × C → Bool × C
  dropped now ((valid, loaded), c) = (not (loaded && not (cache.is_expired valid now)), c)

  abbrev pub serve_id : ℕ → Bool → Option ℕ → C → Bool × C
  serve_id now confirmable none c = (true, c)
  serve_id now confirmable (some id) c =
      if confirmable then (true, c) else dropped now (cache.load_or_store now id (now + lifetime) c)

  -- ServeCOAP at this time: whether the message goes to the handler.
  unfoldable pub serve_coap : ℕ → Message → C → Bool × C
  serve_coap now m c = serve_id now m.confirmable m.message_id c

-- What happens to the cache: a message comes, or the goroutine of New cleans it up.
pub data Event : Type 0 where
  received : ℕ → Message → Event
  cleaned : ℕ → Event

abbrev pub time : Event → ℕ
time (received now m) = now
time (cleaned now) = now

module _ {C : Type 0} (cache : Cache C) (lifetime : ℕ) where
  unfoldable pub step : Event → C → C
  step (received now m) c = (serve_coap cache lifetime now m c).1
  step (cleaned now) c = cache.check_expirations now c

  unfoldable pub run : List Event → C → C
  run [] c = c
  run (e ∷ es) c = run es (step e c)
