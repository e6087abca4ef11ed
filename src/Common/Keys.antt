-- ===== src/Common/Keys.antt =====
-- Go's `map[string]struct{}` as a list of texts. Its order stands for the order in which the
-- runtime walks the map, which is any; the empty list stands for the nil map too, since the code
-- only takes the length, looks up, ranges and deletes, and makes the map before it writes.
use Prim.Native.String.{String}
use text.Mathlib.Text.{◌==◌}
use text.Mathlib.TextEquality.{eq_iff}
use mathlib.Core.Path.{◌≡◌, refl, ap}
use mathlib.Core.Bool.{Bool, true, false, not, ◌&&◌, ◌||◌}
use mathlib.Core.List.{List, [], ◌∷◌, ◌++◌}
use native.Mathlib.Omega.{arith}
use device.Common.Tests.{if◌then◌else◌}

abbrev pub has : String → List String → Bool
has k [] = false
has k (x ∷ xs) = (x == k) || has k xs

unfoldable pub insert : String → List String → List String
insert k xs = if has k xs then xs else k ∷ xs

unfoldable pub delete : String → List String → List String
delete k [] = []
delete k (x ∷ xs) = let rest = delete k xs in if x == k then rest else x ∷ rest

has_of_eq : (j k : String) (xs : List String) → (k == j) ≡ true → has k xs ≡ has j xs
has_of_eq j k xs e = ap (λ t. has t xs) ((eq_iff k j).0 e)

pub has-insert : (j k : String) (xs : List String) → has j (insert k xs) ≡ ((k == j) || has j xs)
unfolding insert
has-insert j k xs = ground (arith, eq_iff k j, has_of_eq j k xs)

pub has-delete :
    (j k : String) (xs : List String) → has j (delete k xs) ≡ (not (k == j) && has j xs)
unfolding delete
has-delete j k [] = ground arith
has-delete j k (x ∷ xs) = ground (arith, eq_iff x k, eq_iff k j, eq_iff x j, has-delete j k xs)

pub has-append : (j : String) (xs ys : List String) → has j (xs ++ ys) ≡ (has j xs || has j ys)
has-append j [] ys = refl
has-append j (x ∷ xs) ys = ground (arith, has-append j xs ys)

-- Some key is in both maps.
abbrev pub overlap : List String → List String → Bool
overlap [] ys = false
overlap (x ∷ xs) ys = has x ys || overlap xs ys

-- No key is in both maps.
abbrev pub Disjoint : List String → List String → Type 0
Disjoint xs ys = (j : String) → has j xs ≡ true → has j ys ≡ false

pub overlap-Disjoint : (xs ys : List String) → overlap xs ys ≡ false → Disjoint xs ys
overlap-Disjoint [] ys h j m = cc
overlap-Disjoint (x ∷ xs) ys h j m =
    ground (arith, eq_iff x j, has_of_eq j x ys, overlap-Disjoint xs ys (ground arith) j)

pub Disjoint-overlap : (xs ys : List String) → Disjoint xs ys → overlap xs ys ≡ false
Disjoint-overlap [] ys d = refl
Disjoint-overlap (x ∷ xs) ys d =
    ground (arith, eq_iff x x, d x, Disjoint-overlap xs ys (λ j m. d j (ground (arith, m))))

pub insert-delete-overlap :
    (k : String) (xs ys : List String)
    → overlap xs ys ≡ false
    → overlap (insert k xs) (delete k ys) ≡ false
insert-delete-overlap k xs ys h =
    Disjoint-overlap (insert k xs) (delete k ys)
      λ j e. ground (arith, has-insert j k xs, has-delete j k ys, overlap-Disjoint xs ys h j)

pub delete-insert-overlap :
    (k : String) (xs ys : List String)
    → overlap xs ys ≡ false
    → overlap (delete k xs) (insert k ys) ≡ false
delete-insert-overlap k xs ys h =
    Disjoint-overlap (delete k xs) (insert k ys)
      λ j e. ground (arith, has-delete j k xs, has-insert j k ys, overlap-Disjoint xs ys h j)
