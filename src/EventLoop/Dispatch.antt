-- ===== src/EventLoop/Dispatch.antt =====
-- Run of pkg/eventloop/eventloop.go: the handler that is called is that of the channel that was ready.
use mathlib.Core.Option.{some-injective}
use device.Common.{
  ℕ, zero, suc, ◌+◌, ◌<◌, ◌≡◌, refl, ap, sym, subst, Bool, true, false, not, ◌&&◌, Option, none,
  some, List, [], ◌∷◌, map, eqb, ◌∙◌, keep, if◌then◌else◌, arith,
}
use device.EventLoop.{
  Handler, new_loop, loaded, add, store_handlers, wake_up, remove_by_channels, get_elem?, Case,
  stop_case, wake_case, recv_case, Running, same_pointer, cases_of, get_cases, start, Round,
  returned, continued, called, call, dispatch, round,
}
use device.EventLoop.Search.{member, remove_by_channels_lem}

abbrev Older : ℕ → Option (ℕ × List Handler) → Type 0
Older n none = Unit
Older n (some (p, hs)) = p < n

-- A pointer stands for one list, and the cases are those of the last list.
record Inv (r : Running) : Type 0 where
  agree : same_pointer r.loop.handlers r.last_handlers ≡ true → r.loop.handlers ≡ r.last_handlers
  older : Older r.loop.stored r.last_handlers
  older_list : Older r.loop.stored r.loop.handlers
  matches : r.cases ≡ cases_of (loaded r.last_handlers)

-- What happens while Run runs: other threads add and remove handlers between its rounds.
pub data Event : Type 0 where
  adds : List Handler → Event
  removes : List ℕ → Event
  rounds : ℕ → Bool → Event

unfoldable pub step : Running → Event → Running
step r (adds hs) = record r { loop = add hs r.loop }
step r (removes chs) = record r { loop = wake_up (remove_by_channels chs r.loop) }
step r (rounds idx ok) = (round idx ok r).1

unfoldable pub run : Running → List Event → Running
run r [] = r
run r (e ∷ es) = run (step r e) es

new_pointer :
    (n : ℕ) (hs : List Handler) (o : Option (ℕ × List Handler))
    → Older n o
    → same_pointer (some (n, hs)) o ≡ false
new_pointer n hs none l = refl
new_pointer n hs (some (p, ks)) l = ground arith

next-Older : (n : ℕ) (o : Option (ℕ × List Handler)) → Older n o → Older (n + 1) o
next-Older n none l = tt
next-Older n (some (p, hs)) l = omega (arith, l)

store_handlers-Inv :
    (hs : List Handler) (w : Bool) (r : Running)
    → Inv r
    → Inv (record r { loop = record (store_handlers hs r.loop) { wake = w } })
unfolding store_handlers
store_handlers-Inv hs w r i = record {
  agree = λ e. ground (arith, e, new_pointer r.loop.stored hs r.last_handlers i.older);
  older = next-Older r.loop.stored r.last_handlers i.older;
  older_list = omega arith;
  matches = i.matches;
}

if-Inv :
    (b : Bool) (r s : Running) → (b ≡ true → Inv r) → (b ≡ false → Inv s) → Inv (if b then r else s)
if-Inv true r s f g = f refl
if-Inv false r s f g = g refl

get_cases-Inv : (r : Running) → Inv r → Inv (get_cases r)
unfolding get_cases
get_cases-Inv r i =
    if-Inv (same_pointer r.loop.handlers r.last_handlers) _ _ (λ e. i)
      λ e. record {
        agree = λ e'. refl;
        older = i.older_list;
        older_list = i.older_list;
        matches = refl;
      }

call-Inv : (o : Option Handler) (ok : Bool) (r : Running) → Inv r → Inv (call o ok r).1
unfolding remove_by_channels store_handlers
call-Inv none ok r i = i
call-Inv (some h) true r i = i
call-Inv (some h) false r i = store_handlers-Inv _ r.loop.wake r i

dispatch-Inv : (idx : ℕ) (ok : Bool) (r : Running) → Inv r → Inv (dispatch idx ok r).1
dispatch-Inv zero ok r i = i
dispatch-Inv (suc zero) ok r i = record {
  agree = i.agree;
  older = i.older;
  older_list = i.older_list;
  matches = i.matches;
}
dispatch-Inv (suc (suc k)) ok r i = call-Inv (get_elem? k (loaded r.last_handlers)) ok r i

step-Inv : (r : Running) (e : Event) → Inv r → Inv (step r e)
unfolding step add wake_up remove_by_channels round
step-Inv r (adds hs) i = store_handlers-Inv _ true r i
step-Inv r (removes chs) i = store_handlers-Inv _ true r i
step-Inv r (rounds idx ok) i = dispatch-Inv idx ok (get_cases r) (get_cases-Inv r i)

run-Inv : (r : Running) (es : List Event) → Inv r → Inv (run r es)
unfolding run
run-Inv r [] i = i
run-Inv r (e ∷ es) i = run-Inv (step r e) es (step-Inv r e i)

start-Inv : Inv (start new_loop)
start-Inv = record { agree = λ e. refl; older = tt; older_list = tt; matches = refl }

-- The round does what the case asks that was ready: it ends the loop, goes on, or calls a handler of
-- that channel, told whether the channel is closed.
abbrev pub serves : Case → Bool → Round → Bool
serves stop_case ok returned = true
serves wake_case ok continued = true
serves (recv_case c) true (called h closed) = eqb h.ch c && not closed
serves (recv_case c) false (called h closed) = eqb h.ch c && closed
serves _ _ _ = false

serves-called :
    (h : Handler) (ok : Bool) (r : Running)
    → serves (recv_case h.ch) ok (call (some h) ok r).0 ≡ true
serves-called h true r = ground arith
serves-called h false r = ground arith

call-serves :
    (i : ℕ) (ok : Bool) (hs : List Handler) (c : Case) (r : Running)
    → get_elem? i (map (λ h. recv_case h.ch) hs) ≡ some c
    → serves c ok (call (get_elem? i hs) ok r).0 ≡ true
call-serves i ok [] c r e = cc
call-serves zero ok (h ∷ hs) c r e =
    subst (λ k. serves k ok (call (some h) ok r).0 ≡ true) (some-injective _ _ e)
      (serves-called h ok r)
call-serves (suc i) ok (h ∷ hs) c r e = call-serves i ok hs c r e

dispatch-serves :
    (idx : ℕ) (ok : Bool) (c : Case) (r : Running)
    → get_elem? idx (cases_of (loaded r.last_handlers)) ≡ some c
    → serves c ok (dispatch idx ok r).0 ≡ true
dispatch-serves zero ok c r e = subst (λ k. serves k ok returned ≡ true) (some-injective _ _ e) refl
dispatch-serves (suc zero) ok c r e =
    subst (λ k. serves k ok continued ≡ true) (some-injective _ _ e) refl
dispatch-serves (suc (suc i)) ok c r e = call-serves i ok (loaded r.last_handlers) c r e

-- Whatever handlers were added and removed, and whatever rounds Run has made: when Select returns the
-- index of a case, the round serves that case, and so does not panic.
pub round-serves :
    (es : List Event) (idx : ℕ) (ok : Bool) (c : Case)
    → get_elem? idx (get_cases (run (start new_loop) es)).cases ≡ some c
    → serves c ok (round idx ok (run (start new_loop) es)).0 ≡ true
unfolding round
round-serves es idx ok c e =
    let i = get_cases-Inv _ (run-Inv (start new_loop) es start-Inv) in
    dispatch-serves idx ok c (get_cases (run (start new_loop) es))
      (ap (get_elem? idx) (sym i.matches) ∙ e)

abbrev pub channels : List Handler → List ℕ
channels = map (λ h. h.ch)

channels-keep :
    (p : ℕ) (hs : List Handler)
    → member p (channels (keep (λ h. not (member h.ch (p ∷ []))) hs)) ≡ false
channels-keep p [] = refl
channels-keep p (h ∷ hs) = ground (arith, channels-keep p hs)

call-closed :
    (o : Option Handler) (ok : Bool) (r : Running) (h : Handler)
    → (call o ok r).0 ≡ called h true
    → member h.ch (channels (loaded (call o ok r).1.loop.handlers)) ≡ false
call-closed none ok r h e = cc
call-closed (some k) true r h e = cc
call-closed (some k) false r h e =
    let same : k ≡ h = cc in
    subst
      (λ x.
        member x.ch (channels (loaded (remove_by_channels (k.ch ∷ []) r.loop).handlers)) ≡ false)
      same
      (ap (λ hs. member k.ch (channels hs)) (remove_by_channels_lem (k.ch ∷ []) r.loop)
        ∙ channels-keep k.ch (loaded r.loop.handlers))

-- After a round that tells a handler that its channel is closed, no handler of that channel is left.
round-closed :
    (idx : ℕ) (ok : Bool) (r : Running) (h : Handler)
    → (round idx ok r).0 ≡ called h true
    → member h.ch (channels (loaded (round idx ok r).1.loop.handlers)) ≡ false
unfolding round
round-closed zero ok r h e = cc
round-closed (suc zero) ok r h e = cc
round-closed (suc (suc i)) ok r h e =
    call-closed (get_elem? i (loaded (get_cases r).last_handlers)) ok (get_cases r) h e
