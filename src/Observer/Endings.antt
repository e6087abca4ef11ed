-- ===== src/Observer/Endings.antt =====
-- devicesObservationHandler and poll of client/observeDevices.go: what the user's handler hears.
use device.Common.{
  ℕ, ◌≤◌, String, ◌≡◌, refl, ap, Bool, true, false, not, ◌&&◌, is_some, Option, none, some, List,
  [], ◌∷◌, arith, Bool-cases, Option-cases, inl, inr, ◌∙◌,
}
use device.Observer.{
  Event, Counts, Handler, close, on_close, on_error, Observer, observe, after_observe, Watch,
  new_devices_observer, poll_observe, end_poll, poll_end, cancel, Action, observes, ends, cancels,
  step, run,
}
use device.Observer.Handling.{endings, Inv, on_close-Inv, on_error-Inv, observe-Inv, observe-closed}

-- What holds of an observer and its goroutine: a context that is done, or a goroutine that has ended,
-- leaves the handler closed.
pub record WatchInv (w : Watch) : Type 0 where
  pub heard : Inv w.observer.handler
  pub cancelled_is_closed : w.context_done ≡ true → w.observer.handler.is_closed ≡ true
  pub ended_is_closed : w.running ≡ false → w.observer.handler.is_closed ≡ true

new_devices_observer-WatchInv : (threshold : ℕ) → WatchInv (new_devices_observer threshold)
unfolding new_devices_observer
new_devices_observer-WatchInv threshold = record {
  heard = record { open_has_none = λ e. refl; one_ending = omega arith; removed_once = refl };
  cancelled_is_closed = λ e. cc e;
  ended_is_closed = λ e. cc e;
}

after_observe-Inv :
    (c : Bool) (o : Observer) (r : Option Counts × Handler)
    → Inv r.1
    → Inv (after_observe c o r).1.handler
      × ((after_observe c o r).0 ≡ false → (after_observe c o r).1.handler.is_closed ≡ true)
      × (r.1.is_closed ≡ true → (after_observe c o r).1.handler.is_closed ≡ true)
      × (r.1.is_closed ≡ true → (after_observe c o r).1.handler.calls ≡ r.1.calls)
unfolding on_close on_error
after_observe-Inv true o (r, h) i = (on_close-Inv h i, ground arith, ground arith, ground arith)
after_observe-Inv false o (none, h) i = (on_error-Inv h i, ground arith, ground arith, ground arith)
after_observe-Inv false o (some c, h) i = (i, λ e. cc, λ e. e, λ e. refl)

-- A step keeps the invariant, and on a closed handler it changes neither what was heard nor that it is
-- closed.
record Kept (w w' : Watch) : Type 0 where
  inv : WatchInv w'
  closed : w.observer.handler.is_closed ≡ true → w'.observer.handler.is_closed ≡ true
  calls : w.observer.handler.is_closed ≡ true → w'.observer.handler.calls ≡ w.observer.handler.calls

poll_observe-Kept :
    (a : Event → Bool) (found : Option (List String)) (w : Watch)
    → WatchInv w
    → Kept w (poll_observe a found w)
unfolding poll_observe
poll_observe-Kept a found w i =
    let n = observe-Inv a found w.observer i.heard in
    elim (Bool-cases (w.running && not (is_some w.observed))) [
      | inr e ↦ rw e (record { inv = i; closed = λ c. c; calls = λ c. refl })
      | inl e ↦ rw e (record {
        inv = record {
          heard = n;
          cancelled_is_closed = λ d. stays (i.cancelled_is_closed d);
          ended_is_closed = λ d. stays (i.ended_is_closed d);
        };
        closed = stays;
        calls = λ c. ap (λ (t : Handler). t.calls) (observe-closed a found w.observer c);
      })
    ]
  where
    stays : w.observer.handler.is_closed ≡ true → (observe a found w.observer).1.is_closed ≡ true
    stays c = ap (λ (t : Handler). t.is_closed) (observe-closed a found w.observer c) ∙ c

end_poll-Kept : (o : Option (Option Counts)) (w : Watch) → WatchInv w → Kept w (end_poll o w)
end_poll-Kept none w i = record { inv = i; closed = λ c. c; calls = λ c. refl }
end_poll-Kept (some r) w i =
    let n = after_observe-Inv w.context_done w.observer (r, w.observer.handler) i.heard in
    record {
      inv = record {
        heard = n.0;
        cancelled_is_closed = λ d. n.2 (i.cancelled_is_closed d);
        ended_is_closed = n.1;
      };
      closed = n.2;
      calls = n.3;
    }

cancel-Kept : (w : Watch) → WatchInv w → Kept w (cancel w)
unfolding cancel close
cancel-Kept w i = record {
  inv = record {
    heard = record {
      open_has_none = λ e. cc e;
      one_ending = i.heard.one_ending;
      removed_once = i.heard.removed_once;
    };
    cancelled_is_closed = λ d. refl;
    ended_is_closed = λ d. refl;
  };
  closed = λ c. refl;
  calls = λ c. refl;
}

step-Kept : (w : Watch) (a : Action) → WatchInv w → Kept w (step w a)
unfolding step poll_end
step-Kept w (observes a found) i = poll_observe-Kept a found w i
step-Kept w ends i = end_poll-Kept w.observed w i
step-Kept w cancels i = cancel-Kept w i

run-Kept : (w : Watch) (xs : List Action) → WatchInv w → Kept w (run w xs)
unfolding run
run-Kept w [] i = record { inv = i; closed = λ c. c; calls = λ c. refl }
run-Kept w (a ∷ xs) i =
    let k = step-Kept w a i in
    let n = run-Kept (step w a) xs k.inv in
    record {
      inv = n.inv;
      closed = λ c. n.closed (k.closed c);
      calls = λ c. n.calls (k.closed c) ∙ k.calls c;
    }

cancel-closed : (w : Watch) → (cancel w).observer.handler.is_closed ≡ true
unfolding cancel close
cancel-closed w = refl

cancel-calls : (w : Watch) → (cancel w).observer.handler.calls ≡ w.observer.handler.calls
unfolding cancel close
cancel-calls w = refl

-- The poll that a cancelled observer is at, or its next one, is the last.
cancel-stops :
    (a : Event → Bool) (found : Option (List String)) (w : Watch)
    → (poll_end (poll_observe a found (cancel w))).running ≡ false
unfolding poll_end poll_observe cancel
cancel-stops a found w = elim (Option-cases w.observed) [
  | inl e ↦ elim (Bool-cases w.running) [ inl r ↦ rw (e, r) refl | inr r ↦ rw (e, r) refl ]
  | inr (o, e) ↦ elim (Bool-cases w.running) [ inl r ↦ rw (e, r) refl | inr r ↦ rw (e, r) refl ]
]

-- Through any polls of a new observer, and any calls of Cancel between the two halves of one or behind
-- them: the user's handler hears OnClose or Error at most once, the subscription is removed by the
-- handler exactly as often as that; behind a Cancel the user's handler hears nothing more, not even an
-- OnClose, and the poll that the goroutine is at, or its next one, is its last.
pub run-endings :
    (threshold : ℕ) (xs ys : List Action)
    → (endings (run (new_devices_observer threshold) xs).observer.handler.calls ≤ 1)
      × ((run (new_devices_observer threshold) xs).observer.handler.unsubscribed
          ≡ endings (run (new_devices_observer threshold) xs).observer.handler.calls)
      × ((run (cancel (run (new_devices_observer threshold) xs)) ys).observer.handler.calls
          ≡ (run (new_devices_observer threshold) xs).observer.handler.calls)
      × ((accepts : Event → Bool) (found : Option (List String))
          → (poll_end (
              poll_observe accepts found
                (cancel (run (new_devices_observer threshold) xs)))).running
            ≡ false)
run-endings threshold xs ys =
    let w = run (new_devices_observer threshold) xs in
    let k =
      run-Kept (new_devices_observer threshold) xs (new_devices_observer-WatchInv threshold) in
    let n = run-Kept (cancel w) ys (cancel-Kept w k.inv).inv in
    (
      k.inv.heard.one_ending,
      k.inv.heard.removed_once,
      n.calls (cancel-closed w) ∙ cancel-calls w,
      λ accepts found. cancel-stops accepts found w,
    )
