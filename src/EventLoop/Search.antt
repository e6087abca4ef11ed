-- ===== src/EventLoop/Search.antt =====
-- removeByChannels of pkg/eventloop/eventloop.go: its binary search finds what a plain one finds.
use device.Common.{
  ℕ, zero, suc, ◌+◌, ◌/◌, ◌≤◌, ◌<◌, ◌≡◌, refl, ◌∙◌, ap, subst, Bool, true, false, not, ◌||◌, none,
  List, [], ◌∷◌, length, leb, ltb, eqb, any, All, keep, arith, Bool-cases, inl, inr,
}
use device.EventLoop.{
  Loop, loaded, insert_sorted, sort, get_elem?, search_loop, search, at_least, hits, is_removed,
  remove_by_channels, store_handlers,
}

abbrev Sorted : List ℕ → Type 0
Sorted [] = Unit
Sorted (c ∷ cs) = All (λ d. c ≤ d) cs × Sorted cs

insert_sorted-All :
    (b c : ℕ) (cs : List ℕ) → b ≤ c → All (λ d. b ≤ d) cs → All (λ d. b ≤ d) (insert_sorted c cs)
unfolding insert_sorted
insert_sorted-All b c [] l a = (l, tt)
insert_sorted-All b c (d ∷ ds) l a = ground (arith, insert_sorted-All b c ds l a.1)

weaken : (b c : ℕ) (cs : List ℕ) → b ≤ c → All (λ d. c ≤ d) cs → All (λ d. b ≤ d) cs
weaken b c [] l a = tt
weaken b c (d ∷ ds) l a = (omega (arith, a.0), weaken b c ds l a.1)

insert_sorted-Sorted : (c : ℕ) (cs : List ℕ) → Sorted cs → Sorted (insert_sorted c cs)
unfolding insert_sorted
insert_sorted-Sorted c [] s = (tt, tt)
insert_sorted-Sorted c (d ∷ ds) s = elim (Bool-cases (leb c d)) [
  | inl e ↦ rw e ((ground arith, weaken c d ds (ground arith) s.0), s)
  | inr e ↦ rw e (insert_sorted-All d c ds (ground arith) s.0, insert_sorted-Sorted c ds s.1)
]

sort-Sorted : (cs : List ℕ) → Sorted (sort cs)
unfolding sort
sort-Sorted [] = tt
sort-Sorted (c ∷ cs) = insert_sorted-Sorted c (sort cs) (sort-Sorted cs)

abbrev pub member : ℕ → List ℕ → Bool
member p = any (λ c. eqb c p)

insert_sorted-member :
    (p c : ℕ) (cs : List ℕ) → member p (insert_sorted c cs) ≡ (eqb c p || member p cs)
unfolding insert_sorted
insert_sorted-member p c [] = refl
insert_sorted-member p c (d ∷ ds) = ground (arith, insert_sorted-member p c ds)

sort-member : (p : ℕ) (cs : List ℕ) → member p (sort cs) ≡ member p cs
unfolding sort
sort-member p [] = refl
sort-member p (c ∷ cs) = ground (arith, insert_sorted-member p c (sort cs), sort-member p cs)

abbrev Monotone : (ℕ → Bool) → Type 0
Monotone f = (i k : ℕ) → i ≤ k → f i ≡ true → f k ≡ true

-- The least index that passes the test.
record Found (f : ℕ → Bool) (r : ℕ) : Type 0 where
  below : (k : ℕ) → k < r → f k ≡ false
  passes : f r ≡ true

search_loop-Found :
    (fuel : ℕ) (f : ℕ → Bool) (i j : ℕ)
    → Monotone f
    → i ≤ j
    → j ≤ i + fuel
    → ((k : ℕ) → k < i → f k ≡ false)
    → f j ≡ true
    → Found f (search_loop fuel f i j)
unfolding search_loop
search_loop-Found zero f i j m l u b p = record {
  below = b;
  passes = subst (λ n. f n ≡ true) (omega arith) p;
}
search_loop-Found (suc fuel) f i j m l u b p = elim (Bool-cases (ltb i j)) [
  | inr e ↦ rw e (record { below = b; passes = subst (λ n. f n ≡ true) (ground arith) p })
  | inl e ↦ elim (Bool-cases (f ((i + j) / 2))) [
    | inl t ↦
        rw (e, t) (search_loop-Found fuel f i ((i + j) / 2) m (ground arith) (ground arith) b t)
    | inr t ↦
        rw (e, t)
          (search_loop-Found fuel f ((i + j) / 2 + 1) j m (ground arith) (ground arith)
            (λ k q. ground (arith, t, m k ((i + j) / 2))) p)
  ]
]

at_least-above :
    (p c i : ℕ) (cs : List ℕ)
    → All (λ d. c ≤ d) cs
    → leb p c ≡ true
    → at_least p (get_elem? i cs) ≡ true
at_least-above p c i [] a l = refl
at_least-above p c zero (d ∷ ds) a l = ground (arith, a.0)
at_least-above p c (suc i) (d ∷ ds) a l = at_least-above p c i ds a.1 l

at_least-Monotone : (p : ℕ) (cs : List ℕ) → Sorted cs → Monotone (λ i. at_least p (get_elem? i cs))
at_least-Monotone p [] s i k l t = refl
at_least-Monotone p (c ∷ cs) s zero zero l t = t
at_least-Monotone p (c ∷ cs) s zero (suc k) l t = at_least-above p c k cs s.0 t
at_least-Monotone p (c ∷ cs) s (suc i) zero l t = absurd (omega arith)
at_least-Monotone p (c ∷ cs) s (suc i) (suc k) l t = at_least-Monotone p cs s.1 i k (omega arith) t

get_elem?-length : (cs : List ℕ) → get_elem? (length cs) cs ≡ none
get_elem?-length [] = refl
get_elem?-length (c ∷ cs) = get_elem?-length cs

above-member : (p c : ℕ) (cs : List ℕ) → All (λ d. c ≤ d) cs → p < c → member p cs ≡ false
above-member p c [] a l = refl
above-member p c (d ∷ ds) a l = ground (arith, a.0, above-member p c ds a.1 l)

hits-member :
    (p r : ℕ) (cs : List ℕ)
    → Sorted cs
    → ((k : ℕ) → k < r → at_least p (get_elem? k cs) ≡ false)
    → at_least p (get_elem? r cs) ≡ true
    → hits p (get_elem? r cs) ≡ member p cs
hits-member p r [] s b t = refl
hits-member p zero (c ∷ cs) s b t = ground (arith, above-member p c cs s.0)
hits-member p (suc r) (c ∷ cs) s b t =
    ground (arith, b 0 (omega arith), hits-member p r cs s.1 (λ k l. b (suc k) (omega arith)) t)

is_removed-Sorted : (p : ℕ) (cs : List ℕ) → Sorted cs → is_removed cs p ≡ member p cs
unfolding is_removed search
is_removed-Sorted p cs s =
    let f =
      search_loop-Found (length cs) (λ i. at_least p (get_elem? i cs)) 0 (length cs)
        (at_least-Monotone p cs s) (omega arith) (omega arith) (λ k l. absurd (omega arith))
        (ap (at_least p) (get_elem?-length cs)) in
    hits-member p _ cs s f.below f.passes

is_removed_lem : (p : ℕ) (chs : List ℕ) → is_removed (sort chs) p ≡ member p chs
is_removed_lem p chs = is_removed-Sorted p (sort chs) (sort-Sorted chs) ∙ sort-member p chs

-- removeByChannels keeps, in their order, exactly the handlers whose channel is not among the given
-- ones: the binary search in the sorted channels finds what a search through all of them finds.
pub remove_by_channels_lem :
    (chs : List ℕ) (el : Loop)
    → loaded (remove_by_channels chs el).handlers
      ≡ keep (λ h. not (member h.ch chs)) (loaded el.handlers)
unfolding remove_by_channels store_handlers
remove_by_channels_lem chs el =
    λ i. keep (λ h. not (is_removed_lem h.ch chs i)) (loaded el.handlers)
