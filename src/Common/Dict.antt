-- ===== src/Common/Dict.antt =====
-- Go's maps, and go-coap's sync.Map, as association lists in which no key stands twice. The order
-- stands for the order in which the runtime walks the map, which is any.
use Prim.Native.String.{String}
use mathlib.Core.Path.{◌≡◌, refl}
use mathlib.Core.Option.{Option, none, some}
use mathlib.Core.List.{List, [], ◌∷◌}
use native.Mathlib.Omega.{arith}
use device.Common.Tests.{if◌then◌else◌, is_some}
use device.Common.Keys.{has}
use device.Common.Eq.{Eq, string_eq}

module _ {ℓ} {K : Type 0} ⦃e : Eq K⦄ {V : Type ℓ} where
  unfoldable pub lookup : K → List (K × V) → Option V
  lookup k [] = none
  lookup k ((j, v) ∷ m) = if e.beq j k then some v else lookup k m

  -- A write replaces the value of a key that is there, and else adds the key at the end.
  unfoldable pub store : K → V → List (K × V) → List (K × V)
  store k v [] = (k, v) ∷ []
  store k v ((j, w) ∷ m) = if e.beq j k then (j, v) ∷ m else (j, w) ∷ store k v m

  unfoldable pub remove : K → List (K × V) → List (K × V)
  remove k [] = []
  remove k ((j, w) ∷ m) = let rest = remove k m in if e.beq j k then rest else (j, w) ∷ rest

  -- No key stands twice.
  abbrev pub Distinct : List (K × V) → Type ℓ
  Distinct [] = Unit
  Distinct ((j, w) ∷ m) = (lookup j m ≡ none) × Distinct m

  pub lookup-store :
      (k j : K) (v : V) (m : List (K × V))
      → lookup j (store k v m) ≡ (if e.beq k j then some v else lookup j m)
  unfolding lookup store
  lookup-store k j v [] = refl
  lookup-store k j v ((i, w) ∷ m) =
      ground (arith, e.beq_iff k j, e.beq_iff i k, e.beq_iff i j, lookup-store k j v m)

  pub lookup-remove :
      (k j : K) (m : List (K × V))
      → lookup j (remove k m) ≡ (if e.beq k j then none else lookup j m)
  unfolding lookup remove
  lookup-remove k j [] = ground arith
  lookup-remove k j ((i, w) ∷ m) =
      ground (arith, e.beq_iff k j, e.beq_iff i k, e.beq_iff i j, lookup-remove k j m)

  pub store-Distinct : (k : K) (v : V) (m : List (K × V)) → Distinct m → Distinct (store k v m)
  unfolding store lookup
  store-Distinct k v [] d = (refl, tt)
  store-Distinct k v ((j, w) ∷ m) d =
      ground (arith, e.beq_iff k j, e.beq_iff j k, store-Distinct k v m d.1, lookup-store k j v m)

  pub remove-Distinct : (k : K) (m : List (K × V)) → Distinct m → Distinct (remove k m)
  unfolding remove lookup
  remove-Distinct k [] d = tt
  remove-Distinct k ((j, w) ∷ m) d = ground (arith, remove-Distinct k m d.1, lookup-remove k j m)

module _ {ℓ} {V : Type ℓ} where
  unfoldable pub keys : List (String × V) → List String
  keys [] = []
  keys ((j, w) ∷ m) = j ∷ keys m

  pub has-keys : (k : String) (m : List (String × V)) → has k (keys m) ≡ is_some (lookup k m)
  unfolding lookup keys
  has-keys k [] = refl
  has-keys k ((j, w) ∷ m) = ground (arith, has-keys k m)
