-- ===== src/Observer/Handling.antt =====
-- devicesObservationHandler of client/observeDevices.go: what the user's handler hears of observe, and
-- of OnClose and Error.
use device.Common.{
  ℕ, suc, ◌+◌, ◌≤◌, String, ◌≡◌, refl, Bool, true, false, Option, none, some, List, [], ◌∷◌, ◌++◌,
  arith, Bool-cases, inl, inr,
}
use device.Observer.{
  Event, went_online, went_offline, Poll, process_devices, Call, handled, closed_call, error_call,
  Handler, handle, on_close, on_error, emit_all, Observer, observe, emit_removed,
}

-- How many of the calls were OnClose or Error.
abbrev pub endings : List Call → ℕ
endings [] = 0
endings (handled e ∷ cs) = endings cs
endings (closed_call ∷ cs) = suc (endings cs)
endings (error_call ∷ cs) = suc (endings cs)

endings-append : (cs ds : List Call) → endings (cs ++ ds) ≡ endings cs + endings ds
endings-append [] ds = omega arith
endings-append (handled e ∷ cs) ds = endings-append cs ds
endings-append (closed_call ∷ cs) ds = omega (arith, endings-append cs ds)
endings-append (error_call ∷ cs) ds = omega (arith, endings-append cs ds)

-- An open handler has had no ending, and any has had one at most, with its removal.
pub record Inv (h : Handler) : Type 0 where
  pub open_has_none : h.is_closed ≡ false → endings h.calls ≡ 0
  pub one_ending : endings h.calls ≤ 1
  pub removed_once : h.unsubscribed ≡ endings h.calls

handle-Inv : (a : Event → Bool) (e : Event) (h : Handler) → Inv h → Inv (handle a e h).1
unfolding handle
handle-Inv a e h i = ground (arith, endings-append h.calls (handled e ∷ []))

pub on_close-Inv : (h : Handler) → Inv h → Inv (on_close h)
unfolding on_close
on_close-Inv h i = ground (arith, endings-append h.calls (closed_call ∷ []))

pub on_error-Inv : (h : Handler) → Inv h → Inv (on_error h)
unfolding on_error
on_error-Inv h i = ground (arith, endings-append h.calls (error_call ∷ []))

emit_all-Inv :
    (a : Event → Bool) (f : String → Event) (ds : List String) (h : Handler)
    → Inv h
    → Inv (emit_all a f ds h).1
unfolding emit_all
emit_all-Inv a f [] h i = i
emit_all-Inv a f (d ∷ ds) h i = elim (Bool-cases (handle a (f d) h).0) [
  | inl e ↦ rw e (emit_all-Inv a f ds (handle a (f d) h).1 (handle-Inv a (f d) h i))
  | inr e ↦ rw e (handle-Inv a (f d) h i)
]

emit_removed-Inv :
    (a : Event → Bool) (p : Poll) (r : Bool × Handler) → Inv r.1 → Inv (emit_removed a p r).1
emit_removed-Inv a p (true, h) i = emit_all-Inv a went_offline p.removed h i
emit_removed-Inv a p (false, h) i = i

pub observe-Inv :
    (a : Event → Bool) (found : Option (List String)) (o : Observer)
    → Inv o.handler
    → Inv (observe a found o).1
unfolding observe
observe-Inv a none o i = i
observe-Inv a (some ds) o i =
    let p = process_devices o.threshold o.online ds in
    emit_removed-Inv a p _ (emit_all-Inv a went_online p.added o.handler i)

handle-closed :
    (a : Event → Bool) (e : Event) (h : Handler) → h.is_closed ≡ true → handle a e h ≡ (true, h)
unfolding handle
handle-closed a e h c = ground arith

emit_all-closed :
    (a : Event → Bool) (f : String → Event) (ds : List String) (h : Handler)
    → h.is_closed ≡ true
    → emit_all a f ds h ≡ (true, h)
unfolding emit_all
emit_all-closed a f [] h c = refl
emit_all-closed a f (d ∷ ds) h c = rw (handle-closed a (f d) h c) (emit_all-closed a f ds h c)

emit_removed-closed :
    (a : Event → Bool) (p : Poll) (r : Bool × Handler)
    → r.1.is_closed ≡ true
    → (emit_removed a p r).1 ≡ r.1
emit_removed-closed a p (true, h) c = rw (emit_all-closed a went_offline p.removed h c)
emit_removed-closed a p (false, h) c = refl

pub observe-closed :
    (a : Event → Bool) (found : Option (List String)) (o : Observer)
    → o.handler.is_closed ≡ true
    → (observe a found o).1 ≡ o.handler
unfolding observe
observe-closed a none o c = refl
observe-closed a (some ds) o c =
    rw (emit_all-closed a went_online (process_devices o.threshold o.online ds).added o.handler c)
      (emit_removed-closed a (process_devices o.threshold o.online ds) (true, o.handler) c)
