-- ===== src/Resource/Observers.antt =====
-- The subscriptions of a resource in bridge/resources/resource.go: none that was made is lost.
use Prim.Native.Nat.{bit_and}
use device.Schema.Link.{observable}
use device.Common.{
  ℕ, String, ◌≡◌, refl, ap, subst, sym, Bool, true, false, not, ◌&&◌, ◌||◌, Option, none, some,
  List, [], ◌∷◌, ◌++◌, any, eqb, if◌then◌else◌, arith, eq_iff, Option-cases, Bool-cases, inl, inr,
}
use device.Common.Eq.{string_eq}
use device.Common.Dict.{lookup, store, remove, Distinct, store-Distinct, remove-Distinct}
use device.Resource.{
  Resource, Request, Handlers, Response, handled, with_etag, bad_request, internal_error,
  method_not_allowed, handler_error, close, remove_subscription, replace_subscription,
  observer_handler, handle_request, new_resource, set_observe_handler, values, add_etag,
  get_response, observe_subscribed, observe_got, is_get, is_post,
}

abbrev pub among : ℕ → List ℕ → Bool
among n = any (λ k. eqb k n)

among-append : (n : ℕ) (xs ys : List ℕ) → among n (xs ++ ys) ≡ (among n xs || among n ys)
among-append n [] ys = refl
among-append n (x ∷ xs) ys = ground (arith, among-append n xs ys)

-- The value under the key that is taken away.
abbrev is_value : Option ℕ → ℕ → Bool
is_value none n = false
is_value (some k) n = eqb k n

values-remove :
    (n : ℕ) (k : String) (m : List (String × ℕ))
    → Distinct m
    → among n (values m) ≡ (is_value (lookup k m) n || among n (values (remove k m)))
unfolding lookup remove
values-remove n k [] d = refl
values-remove n k ((i, v) ∷ m) d =
    ground (arith, values-remove n k m d.1, eq_iff i k, ap (λ (o : Option ℕ). is_value o n) d.0)

values-store :
    (n : ℕ) (k : String) (v : ℕ) (m : List (String × ℕ))
    → (eqb v n || among n (values m)) ≡ (is_value (lookup k m) n || among n (values (store k v m)))
unfolding lookup store
values-store n k v [] = refl
values-store n k v ((i, w) ∷ m) = ground (arith, values-store n k v m)

-- Of a resource that is not closed: every subscription that was made is in the map, or cancelled.
pub record Inv (r : Resource) : Type 0 where
  pub is_open : r.closed ≡ false
  pub distinct : Distinct r.subscriptions
  pub kept :
      (n : ℕ)
      → among n r.created ≡ true
      → (among n r.cancelled || among n (values r.subscriptions)) ≡ true

remove_subscription-Inv : (k : String) (r : Resource) → Inv r → Inv (remove_subscription k r)
unfolding remove_subscription
remove_subscription-Inv k r i = elim (Option-cases (lookup k r.subscriptions)) [
  | inl e ↦ rw (e, remove_subscription) i
  | inr (v, e) ↦
      rw (e, remove_subscription)
        (record {
          is_open = i.is_open;
          distinct = remove-Distinct k r.subscriptions i.distinct;
          kept = λ n c. ground (
            arith,
            i.kept n c,
            among-append n r.cancelled (v ∷ []),
            values-remove n k r.subscriptions i.distinct,
            ap (λ (o : Option ℕ). is_value o n) e,
          );
        })
]

replace_subscription-Inv :
    (k : String) (v : ℕ) (r : Resource)
    → Inv r
    → Inv (replace_subscription k v (record r { created = r.created ++ v ∷ [] }))
unfolding replace_subscription
replace_subscription-Inv k v r i = elim (Option-cases (lookup k r.subscriptions)) [
  | inl e ↦
      rw (e, replace_subscription)
        (record {
          is_open = i.is_open;
          distinct = store-Distinct k v r.subscriptions i.distinct;
          kept = λ n c. ground (
            arith,
            i.kept n,
            among-append n r.created (v ∷ []),
            values-store n k v r.subscriptions,
            ap (λ (o : Option ℕ). is_value o n) e,
          );
        })
  | inr (w, e) ↦
      rw (e, replace_subscription)
        (record {
          is_open = i.is_open;
          distinct = store-Distinct k v r.subscriptions i.distinct;
          kept = λ n c. ground (
            arith,
            i.kept n,
            among-append n r.created (v ∷ []),
            among-append n r.cancelled (w ∷ []),
            values-store n k v r.subscriptions,
            ap (λ (o : Option ℕ). is_value o n) e,
          );
        })
]

observe_got-Inv :
    (got : Option Bool) (k : String) (v : ℕ) (r : Resource)
    → Inv r
    → Inv (observe_got got k v (record r { created = r.created ++ v ∷ [] })).1
observe_got-Inv (some c) k v r i = replace_subscription-Inv k v r i
observe_got-Inv none k v r i = record {
  is_open = i.is_open;
  distinct = i.distinct;
  kept = λ n c.
      ground
        (arith, i.kept n, among-append n r.created (v ∷ []), among-append n r.cancelled (v ∷ []));
}

observe_subscribed-Inv :
    (sub : Option ℕ) (got : Option Bool) (k : String) (r : Resource)
    → Inv r
    → Inv (observe_subscribed sub got k r).1
observe_subscribed-Inv none got k r i = i
observe_subscribed-Inv (some v) got k r i = observe_got-Inv got k v r i

if-Inv :
    (b : Bool) (x y : Response × Resource)
    → (b ≡ true → Inv x.1)
    → (b ≡ false → Inv y.1)
    → Inv (if b then x else y).1
if-Inv true x y f g = f refl
if-Inv false x y f g = g refl

observer_handler-Inv :
    (h : Handlers) (req : Request) (b : Bool) (r : Resource)
    → Inv r
    → Inv (observer_handler h req b r).1
unfolding observer_handler
observer_handler-Inv h req b r i =
    if-Inv (not r.has_loop) _ _ (λ _. i)
      λ _.
        if-Inv b _ _ (λ _. observe_subscribed-Inv h.subscribed h.got req.remote r i)
          λ _. remove_subscription-Inv req.remote r i

add_etag-state : (p : Response × Resource) → (add_etag p).1 ≡ p.1
add_etag-state (handled true, r) = refl
add_etag-state (handled false, r) = refl
add_etag-state (with_etag n, r) = refl
add_etag-state (handler_error, r) = refl
add_etag-state (bad_request, r) = refl
add_etag-state (internal_error, r) = refl
add_etag-state (method_not_allowed, r) = refl

get_response-Inv :
    (h : Handlers) (req : Request) (o : Option ℕ) (r : Resource)
    → Inv r
    → Inv (get_response h req o r).1
get_response-Inv h req none r i = i
get_response-Inv h req (some n) r i =
    if-Inv (r.has_create_subscription && not (eqb (bit_and r.policy_bit_mask observable) 0)) _ _
      (λ _. observer_handler-Inv h req (eqb n 0) r i) λ _. i

handle_request-Inv :
    (h : Handlers) (req : Request) (r : Resource) → Inv r → Inv (handle_request h req r).1
unfolding handle_request
handle_request-Inv h req r i =
    if-Inv (is_get req.code && r.has_get) _ _
      (λ _.
        subst Inv (sym (add_etag-state (get_response h req req.observe r)))
          (get_response-Inv h req req.observe r i))
      λ _. if-Inv (is_post req.code && r.has_post) _ _ (λ _. i) λ _. i

set_observe_handler-Inv : (b : Bool) (r : Resource) → Inv r → Inv (set_observe_handler b r)
unfolding set_observe_handler
set_observe_handler-Inv true r i = record {
  is_open = i.is_open;
  distinct = i.distinct;
  kept = i.kept;
}
set_observe_handler-Inv false r i = record {
  is_open = i.is_open;
  distinct = i.distinct;
  kept = i.kept;
}

-- What happens to a resource: an observe handler is set or taken away, a request comes, and the
-- context of a request ends.
pub data Event : Type 0 where
  observable_set : Bool → Event
  requested : Handlers → Request → Event
  context_done : String → Event

unfoldable pub step : Resource → Event → Resource
step r (observable_set b) = set_observe_handler b r
step r (requested h req) = (handle_request h req r).1
step r (context_done remote) = remove_subscription remote r

unfoldable pub run : Resource → List Event → Resource
run r [] = r
run r (e ∷ es) = run (step r e) es

step-Inv : (r : Resource) (e : Event) → Inv r → Inv (step r e)
unfolding step
step-Inv r (observable_set b) i = set_observe_handler-Inv b r i
step-Inv r (requested h req) i = handle_request-Inv h req r i
step-Inv r (context_done remote) i = remove_subscription-Inv remote r i

run-Inv : (r : Resource) (es : List Event) → Inv r → Inv (run r es)
unfolding run
run-Inv r [] i = i
run-Inv r (e ∷ es) i = run-Inv (step r e) es (step-Inv r e i)

close-cancelled :
    (r : Resource) (n : ℕ)
    → Inv r
    → among n r.created ≡ true
    → among n (close r).created ≡ true × among n (close r).cancelled ≡ true
unfolding close
close-cancelled r n i c = elim (Bool-cases r.closed) [
  | inl e ↦ ground (arith, e, i.is_open)
  | inr e ↦
      rw e (c, ground (arith, i.kept n c, among-append n r.cancelled (values r.subscriptions)))
]

-- A resource that was new, and since then had observe handlers set and taken away, any requests, and
-- ends of requests' contexts, has cancelled after Close every subscription that it made.
pub close-cancels :
    (href : String) (get post : Bool) (types interfaces : List String) (etag : ℕ) (es : List Event)
    (n : ℕ)
    → among n (run (new_resource href get post types interfaces etag) es).created ≡ true
    → among n (close (run (new_resource href get post types interfaces etag) es)).cancelled ≡ true
unfolding new_resource
close-cancels href get post types interfaces etag es n c =
    (close-cancelled (run (new_resource href get post types interfaces etag) es) n
      (run-Inv (new_resource href get post types interfaces etag) es
        (record { is_open = refl; distinct = tt; kept = λ n c. c }))
      c).1
