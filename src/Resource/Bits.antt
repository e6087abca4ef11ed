-- ===== src/Resource/Bits.antt =====
-- The bits of a resource in bridge/resources/resource.go, and its list of types.
use Prim.Native.Nat.{bit_and, bit_or}
use device.Common.{
  ℕ, zero, suc, ◌+◌, ◌-◌, ◌⊎◌, ◌<◌, ◌≤◌, ◌^◌, String, ◌≡◌, refl, ap, Bool, true, false, not, ◌||◌,
  List, [], ◌∷◌, ◌++◌, eqb, if◌then◌else◌, arith, eq_iff, eqb_iff, Bool-cases, inl, inr,
}
use device.Common.Keys.{has, has-append}
use device.Schema.Link.{observable}
use device.Resource.{
  Resource, unique_from, has_operation, operation_read, operation_write, operation_observe,
  supports_operations, set_observe_handler, get_etag, generate_next_etag,
}

-- Every one of `count` masks from `mask` on passes the test.
abbrev masks_pass : (ℕ → Bool) → ℕ → ℕ → Bool
masks_pass test mask zero = true
masks_pass test mask (suc count) = if test mask then masks_pass test (mask + 1) count else false

masks_pass-each :
    (test : ℕ → Bool) (mask count other : ℕ)
    → mask ≤ other
    → other < mask + count
    → masks_pass test mask count ≡ true
    → test other ≡ true
masks_pass-each test mask zero other lower upper passed = absurd (omega (arith, lower, upper))
masks_pass-each test mask (suc count) other lower upper passed =
    elim (Bool-cases (eqb mask other)) [
      | inl same ↦ ground (arith, passed, ap test ((eqb_iff mask other).0 same))
      | inr differs ↦ ground (arith, masks_pass-each test (mask + 1) count other)
    ]

abbrev observed : ℕ → Bool
observed mask = not (eqb (bit_and mask observable) 0)

set_table : masks_pass (λ x. observed (bit_or x observable)) 0 256 ≡ true
set_table = refl

clear_table : masks_pass (λ x. not (observed (bit_and x 0xfd))) 0 256 ≡ true
clear_table = refl

abbrev operations : Bool → Bool → Bool → ℕ
operations g p o =
    let a = if g then bit_or 0 operation_read else 0 in
    let b = if p then bit_or a operation_write else a in if o then bit_or b operation_observe else b

operations_lem :
    (g p o : Bool)
    → (has_operation (operations g p o) operation_read ≡ g)
      × (has_operation (operations g p o) operation_write ≡ p)
      × (has_operation (operations g p o) operation_observe ≡ o)
unfolding has_operation
operations_lem true true true = (refl, refl, refl)
operations_lem true true false = (refl, refl, refl)
operations_lem true false true = (refl, refl, refl)
operations_lem true false false = (refl, refl, refl)
operations_lem false true true = (refl, refl, refl)
operations_lem false true false = (refl, refl, refl)
operations_lem false false true = (refl, refl, refl)
operations_lem false false false = (refl, refl, refl)

set_observe_handler-observed :
    (b : Bool) (r : Resource)
    → r.policy_bit_mask < 256
    → observed (set_observe_handler b r).policy_bit_mask ≡ b
unfolding set_observe_handler
set_observe_handler-observed true r h =
    masks_pass-each (λ x. observed (bit_or x observable)) 0 256 r.policy_bit_mask (omega arith) h
      set_table
set_observe_handler-observed false r h = ground (
  arith,
  masks_pass-each (λ x. not (observed (bit_and x 0xfd))) 0 256 r.policy_bit_mask (omega arith) h
      clear_table,
)

set_observe_handler-handlers :
    (b : Bool) (r : Resource)
    → ((set_observe_handler b r).has_get ≡ r.has_get)
      × ((set_observe_handler b r).has_post ≡ r.has_post)
unfolding set_observe_handler
set_observe_handler-handlers true r = (refl, refl)
set_observe_handler-handlers false r = (refl, refl)

-- Of a resource whose mask is a byte, SupportsOperations reports reading exactly if it has a get
-- handler, writing exactly if it has a post handler, and observing exactly if SetObserveHandler last
-- set an observe handler rather than take it away.
supports_operations_lem :
    (b : Bool) (r : Resource)
    → r.policy_bit_mask < 256
    → let o = supports_operations (set_observe_handler b r) in
      (has_operation o operation_read ≡ r.has_get)
      × (has_operation o operation_write ≡ r.has_post)
      × (has_operation o operation_observe ≡ b)
unfolding supports_operations
supports_operations_lem b r h =
    let r' = set_observe_handler b r in
    ground (
      arith,
      operations_lem r'.has_get r'.has_post (observed r'.policy_bit_mask),
      set_observe_handler-observed b r h,
      set_observe_handler-handlers b r,
    )

unique_from-has :
    (ss list : List String) (k : String) → has k (unique_from ss list) ≡ (has k list || has k ss)
unfolding unique_from
unique_from-has [] list k = ground arith
unique_from-has (s ∷ ss) list k = ground (
  arith,
  unique_from-has ss (if has s list then list else list ++ s ∷ []) k,
  has-append k list (s ∷ []),
  eq_iff s k,
  ap (λ t. has t list) {x = s} {y = k},
)

-- The ETag counter does not fall while clock and counter are below 2 ^ 64 - 1000, and grows by less
-- than 1000 past the larger of the two.
get_etag_bounds :
    (now random old : ℕ)
    → now < 2 ^ 64 - 1000
    → old < 2 ^ 64 - 1000
    → (old ≤ get_etag now random old)
      × (now ≤ get_etag now random old)
      × ((get_etag now random old < now + 1000) ⊎ (get_etag now random old < old + 1000))
unfolding get_etag generate_next_etag
get_etag_bounds now random old h k = ground arith
