-- ===== src/Cloud/Batches.antt =====
-- unpublishResources of bridge/device/cloud/publishResources.go: the loop ends, and what it sends.
use device.Common.{
  ℕ, zero, suc, ◌≤◌, ◌<◌, String, ◌≡◌, ◌≢◌, refl, ap, sym, ◌∙◌, List, [], ◌∷◌, ◌++◌, map,
  append-nil, append_assoc, arith, length, take, drop, All, length-take-le, length-drop,
  take-append-drop,
}
use device.Cloud.State.{Manager, Sent, sent_unpublish, pop_ready_to_unpublish, on_close}
use device.Cloud.Monad.{out_of_fuel, Result, ok, err, monad, bind}
use device.Cloud.Session.{Exchange, need_client, do_request}
use device.Cloud.Publish.{batch, unpublish_round, unpublish_loop, unpublish_step}

-- The requests that unpublish these hrefs: ten to a request, in order.
pub batches : ℕ → List String → List (List String)
batches zero hs = []
batches (suc n) [] = []
batches (suc n) (h ∷ hs) = take batch (h ∷ hs) ∷ batches n (drop batch (h ∷ hs))

abbrev pub flatten : List (List String) → List String
flatten [] = []
flatten (b ∷ bs) = b ++ flatten bs

flatten-batches : (n : ℕ) (hs : List String) → length hs ≤ n → flatten (batches n hs) ≡ hs
unfolding batches
flatten-batches zero [] h = refl
flatten-batches zero (x ∷ hs) h = elim h [ ]
flatten-batches (suc n) [] h = refl
flatten-batches (suc n) (x ∷ hs) h =
    ap (λ t. take batch (x ∷ hs) ++ t)
      (flatten-batches n (drop batch (x ∷ hs)) (omega (arith, length-drop batch (x ∷ hs), h)))
    ∙ take-append-drop batch (x ∷ hs)

batches-bounded :
    (n : ℕ) (hs : List String) → All (λ b. (length b ≤ 10) × (0 < length b)) (batches n hs)
unfolding batches
batches-bounded zero hs = tt
batches-bounded (suc n) [] = tt
batches-bounded (suc n) (x ∷ hs) =
    ((length-take-le batch (x ∷ hs), omega arith), batches-bounded n (drop batch (x ∷ hs)))

-- What one round leaves as it was, and what it sends if it succeeds.
record Round (ready : List String) (m : Manager) (r : Result (Unit {0}) × Manager) : Type 0 where
  rest : r.1.ready_to_unpublish ≡ m.ready_to_unpublish
  real : r.0 ≢ err out_of_fuel
  sends : r.0 ≡ ok tt → r.1.sent ≡ m.sent ++ sent_unpublish ready ∷ []

unpublish_round-Round :
    (x : Exchange (Unit {0})) (ready : List String) (m : Manager)
    → Round ready m (unpublish_round x ready m)
unfolding unpublish_round need_client do_request on_close monad
unpublish_round-Round x ready m = ground arith

-- The loop with enough fuel, from `s` sent and the hrefs `hs` left.
record Loop (s : List Sent) (hs : List String) (n : ℕ) (r : Result (Unit {0}) × Manager)
    : Type 0 where
  real : r.0 ≢ err out_of_fuel
  emptied : r.0 ≡ ok tt → r.1.ready_to_unpublish ≡ []
  sends : r.0 ≡ ok tt → r.1.sent ≡ s ++ map sent_unpublish (batches n hs)

bind-Loop :
    (fuel : ℕ) (xs : ℕ → Exchange (Unit {0})) (k n : ℕ) (h : String) (hs : List String)
    (s : List Sent) (left : List String) (r : Result (Unit {0}) × Manager)
    → left ≡ drop batch (h ∷ hs)
    → r.1.ready_to_unpublish ≡ left
    → r.0 ≢ err out_of_fuel
    → (r.0 ≡ ok tt → r.1.sent ≡ s ++ sent_unpublish (take batch (h ∷ hs)) ∷ [])
    → ((m' : Manager)
        → m'.ready_to_unpublish ≡ left
        → Loop m'.sent left n (unpublish_loop fuel xs k m'))
    → Loop s (h ∷ hs) (suc n) (bind r (λ _. unpublish_loop fuel xs k))
unfolding batches
bind-Loop fuel xs k n h hs s left (ok a, m') e rest real sends rec =
    let again = rec m' rest in
    record {
      real = again.real;
      emptied = again.emptied;
      sends = λ o.
          again.sends o
          ∙ ap (λ (t : List Sent). t ++ map sent_unpublish (batches n left)) (sends refl)
          ∙ append_assoc s (sent_unpublish (take batch (h ∷ hs)) ∷ []) _
          ∙ ap
              (λ (t : List String).
                s ++ sent_unpublish (take batch (h ∷ hs)) ∷ map sent_unpublish (batches n t))
              e;
    }
bind-Loop fuel xs k n h hs s left (err e', m') e rest real sends rec = record {
  real = real;
  emptied = λ o. cc;
  sends = λ o. cc;
}

unpublish_loop-Loop :
    (fuel : ℕ) (xs : ℕ → Exchange (Unit {0})) (k n : ℕ) (hs : List String) (m : Manager)
    → m.ready_to_unpublish ≡ hs
    → length hs ≤ n
    → n < fuel
    → Loop m.sent hs n (unpublish_loop fuel xs k m)
unfolding unpublish_loop pop_ready_to_unpublish batches monad
unpublish_loop-Loop zero xs k n hs m e l f = elim f [ ]
unpublish_loop-Loop (suc fuel) xs k zero [] m e l f =
    rw e (record { real = λ o. cc; emptied = λ o. refl; sends = λ o. sym (append-nil m.sent) })
unpublish_loop-Loop (suc fuel) xs k (suc n) [] m e l f =
    rw e (record { real = λ o. cc; emptied = λ o. refl; sends = λ o. sym (append-nil m.sent) })
unpublish_loop-Loop (suc fuel) xs k zero (h ∷ hs) m e l f = elim l [ ]
unpublish_loop-Loop (suc fuel) xs k (suc n) (h ∷ hs) m e l f =
    let left = drop batch (h ∷ hs) in
    let m' = record m { ready_to_unpublish = left } in
    let r = unpublish_round-Round (xs k) (take batch (h ∷ hs)) m' in
    let shorter = length-drop batch (h ∷ hs) in
    rw e (
      bind-Loop fuel xs (suc k) n h hs m.sent left (unpublish_round (xs k) (take batch (h ∷ hs)) m')
        refl r.rest r.real r.sends
        λ m'' e'.
          unpublish_loop-Loop fuel xs (suc k) n left m'' e' (omega (arith, shorter, l))
            (omega (arith, f)))

-- unpublishResources ends, whatever the cloud answers: it never runs out of the rounds that the
-- number of hrefs allows.
pub unpublish_step-ends :
    (xs : ℕ → Exchange (Unit {0})) (m : Manager) → (unpublish_step xs m).0 ≢ err out_of_fuel
unfolding unpublish_step
unpublish_step-ends xs m =
    (unpublish_loop-Loop _ xs 0 (length m.ready_to_unpublish) m.ready_to_unpublish m refl
      (omega arith) (omega arith)).real

pub unpublish_step-emptied :
    (xs : ℕ → Exchange (Unit {0})) (m : Manager)
    → (unpublish_step xs m).0 ≡ ok tt
    → (unpublish_step xs m).1.ready_to_unpublish ≡ []
unfolding unpublish_step
unpublish_step-emptied xs m =
    (unpublish_loop-Loop _ xs 0 (length m.ready_to_unpublish) m.ready_to_unpublish m refl
      (omega arith) (omega arith)).emptied

-- When unpublishResources succeeds, no href is left to be unpublished, and the requests that it sent
-- hold one to ten hrefs each and together exactly the hrefs that were waiting, in their order.
pub unpublish_step-sends :
    (xs : ℕ → Exchange (Unit {0})) (m : Manager)
    → (unpublish_step xs m).0 ≡ ok tt
    → (bs : List (List String)) × ((unpublish_step xs m).1.ready_to_unpublish ≡ [])
      × ((unpublish_step xs m).1.sent ≡ m.sent ++ map sent_unpublish bs)
      × (flatten bs ≡ m.ready_to_unpublish)
      × All (λ b. (length b ≤ 10) × (0 < length b)) bs
unfolding unpublish_step
unpublish_step-sends xs m o =
    let n = length m.ready_to_unpublish in
    let l =
      unpublish_loop-Loop (suc n) xs 0 n m.ready_to_unpublish m refl (omega arith) (omega arith) in
    (
      batches n m.ready_to_unpublish,
      l.emptied o,
      l.sends o,
      flatten-batches n m.ready_to_unpublish (omega arith),
      batches-bounded n m.ready_to_unpublish,
    )
