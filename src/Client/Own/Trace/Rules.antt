-- ===== src/Client/Own/Trace/Rules.antt =====
-- The rules of the single steps of client/core/ownDevice.go, of dialled connections and of disown.
use device.Common.{
  ◌+◌, String, ◌≡◌, refl, sym, ap, subst, Bool, true, false, Option, none, some, [], ◌∷◌, ◌++◌,
  arith, append-nil,
}
use mathlib.Core.List.{map-append}
use device.Client.Own.Requests.{Conn, owner_conn, Request, set_operational_state, reset, Error}
use device.Client.Own.Monad
use device.Client.Own.Monad.{
  Sent, Peer, State, Result, ok, err, M, bind, ◌>>=◌, ◌>>◌, pure, throw, require, from_option,
  read_device_id, dial, close_after, closing, send, update,
}
use device.Client.Own.Transfer.{disown, disown_on_error, or_disown}
use device.Client.Own.Trace.{
  unmoved, Moved-trans, Moved-map, kind, Script, IsPrefix, Moved, After, Sends, Trace, bind_sends,
  bind_rule, enters,
}

After-require :
    (b : Bool) (e : Error) (s : State) → After s (λ l. l ≡ []) (λ l. IsPrefix l []) (require b e s)
unfolding require
After-require true e s = unmoved s _ refl
After-require false e s = unmoved s _ ([], refl)

pub require_rule : (b : Bool) (e : Error) → Trace (require b e) []
require_rule b e = record { holds = After-require b e }

After-option :
    {A : Type 0} (o : Option A) (e : Error) (s : State)
    → After s (λ l. l ≡ []) (λ l. IsPrefix l []) (from_option o e s)
unfolding from_option
After-option (some a) e s = unmoved s _ refl
After-option none e s = unmoved s _ ([], refl)

pub option_rule : {A : Type 0} (o : Option A) (e : Error) → Trace (from_option o e) []
option_rule o e = record { holds = After-option o e }

pub read_rule : Trace read_device_id []
unfolding read_device_id
read_rule = record { holds = λ s. unmoved s _ refl }

pub set_rule : (id : String) → Trace (Monad.set_device_id id) []
unfolding Monad.set_device_id
set_rule id = record {
  holds = λ s. record {
    script = [];
    sends = sym (append-nil _);
    in_script = refl;
    balanced = omega arith;
  };
}

pub send_rule : (peer : Peer) (c : Conn) (q : Request) → Trace (send peer c q) ((c, kind q) ∷ [])
unfolding send
send_rule peer c q = record {
  holds = λ s. record {
    script = (c, kind q) ∷ [];
    sends = map-append _ s.sent _;
    in_script = refl;
    balanced = omega arith;
  };
}

pub update_rule :
    (peer : Peer) (c : Conn) (q : Request) (e : Error)
    → Trace (update peer c q e) ((c, kind q) ∷ [])
unfolding update
update_rule peer c q e =
    bind_rule ((c, kind q) ∷ []) [] (send_rule peer c q) (λ r. require_rule r.accepted e)

pub Trace-cast : {A : Type 0} {c : M A} {ks ls : Script} → ks ≡ ls → Trace c ks → Trace c ls
Trace-cast {c = c} e t = subst (λ l. Trace c l) e t

Moved-close :
    (s s' : State) (D : Script → Type 0)
    → Moved (record s { opened = s.opened + 1 }) D s'
    → Moved s D (record s' { closed = s'.closed + 1 })
Moved-close s s' D m = record {
  script = m.script;
  sends = m.sends;
  in_script = m.in_script;
  balanced = omega (arith, m.balanced);
}

After-close :
    {A : Type 0} (s : State) (D F : Script → Type 0) (r : Result A × State)
    → After (record s { opened = s.opened + 1 }) D F r
    → After s D F (close_after r)
After-close s D F (ok a, t) m = Moved-close s t D m
After-close s D F (err e, t) m = Moved-close s t F m

After-dial :
    {A : Type 0} (b : Bool) (e : Error) (c : M A) (D F : Script → Type 0) (s : State)
    → F []
    → Sends c D F
    → After s D F ((dial b e >> closing c) s)
unfolding dial closing ◌>>=◌ ◌>>◌
After-dial true e c D F s f h =
    After-close s D F (c (record s { opened = s.opened + 1 }))
      (h.holds (record s { opened = s.opened + 1 }))
After-dial false e c D F s f h = unmoved s F f

-- A connection is dialled, used and closed.
pub dial_rule :
    {A : Type 0} {c : M A} (b : Bool) (e : Error) (D F : Script → Type 0)
    → F []
    → Sends c D F
    → Sends (dial b e >> closing c) D F
dial_rule {c = c} b e D F f h = record { holds = λ s. After-dial b e c D F s f h }

-- A beginning of the script, and then the request that disowns the device.
abbrev pub Disowned : Script → Script → Type 0
Disowned ks l = (k : Script) × IsPrefix k ks × (l ≡ k ++ (owner_conn, enters reset) ∷ [])

require-state : (b : Bool) (e : Error) (s : State) → (require b e s).1 ≡ s
unfolding require
require-state true e s = refl
require-state false e s = refl

disown-state :
    (peer : Peer) (s : State)
    → disown peer s ≡ record s { sent = s.sent ++ (owner_conn, set_operational_state reset) ∷ [] }
unfolding disown update send ◌>>=◌
disown-state peer s = require-state _ _ _

disown-Moved :
    (peer : Peer) (s : State) → Moved s (λ l. l ≡ (owner_conn, enters reset) ∷ []) (disown peer s)
disown-Moved peer s =
    subst (Moved s (λ l. l ≡ (owner_conn, enters reset) ∷ [])) (sym (disown-state peer s)) (record {
      script = (owner_conn, enters reset) ∷ [];
      sends = map-append _ s.sent _;
      in_script = refl;
      balanced = omega arith;
    })

Moved-disown :
    (s s' s'' : State) (ks : Script)
    → Moved s (λ l. IsPrefix l ks) s'
    → Moved s' (λ l. l ≡ (owner_conn, enters reset) ∷ []) s''
    → Moved s (Disowned ks) s''
Moved-disown s s' s'' ks m n =
    Moved-trans s s' s'' m.script _ (Disowned ks)
      (record { script = m.script; sends = m.sends; in_script = refl; balanced = m.balanced }) n
      (λ l e. (m.script, m.in_script, ap (λ x. m.script ++ x) e))

After-disown :
    {A : Type 0} (peer : Peer) (s : State) (ks : Script) (r : Result A × State)
    → After s (λ l. l ≡ ks) (λ l. IsPrefix l ks) r
    → After s (λ l. l ≡ ks) (Disowned ks) (disown_on_error peer r)
After-disown peer s ks (ok a, t) m = m
After-disown peer s ks (err e, t) m = Moved-disown s t (disown peer t) ks m (disown-Moved peer t)

pub disown_rule :
    {A : Type 0} {c : M A} (peer : Peer) (ks : Script)
    → Trace c ks
    → Sends (or_disown peer c) (λ l. l ≡ ks) (Disowned ks)
unfolding or_disown
disown_rule {c = c} peer ks h = record { holds = λ s. After-disown peer s ks (c s) (h.holds s) }

pub then_sends :
    {A B : Type 0} {c : M A} {k : M B} (ks : Script) (E D F D' F' : Script → Type 0)
    → Sends c (λ l. l ≡ ks) E
    → Sends k D F
    → ((l : Script) → E l → F' l)
    → ((l : Script) → D l → D' (ks ++ l))
    → ((l : Script) → F l → F' (ks ++ l))
    → Sends (c >> k) D' F'
unfolding ◌>>◌
then_sends ks E D F D' F' h k e d g = bind_sends ks E D F D' F' h (λ a. k) e d g

After-map :
    {A : Type 0} (s : State) (D F F' : Script → Type 0) (r : Result A × State)
    → ((l : Script) → F l → F' l)
    → After s D F r
    → After s D F' r
After-map s D F F' (ok a, t) f m = m
After-map s D F F' (err e, t) f m = Moved-map s t F F' f m

pub weaken_sends :
    {A : Type 0} {c : M A} (D F F' : Script → Type 0)
    → ((l : Script) → F l → F' l)
    → Sends c D F
    → Sends c D F'
weaken_sends {c = c} D F F' f h = record { holds = λ s. After-map s D F F' (c s) f (h.holds s) }

-- A value that is there is passed on.
pub some_rule :
    {A B : Type 0} (f : A → M B) (a : A) (e : Error) (D F : Script → Type 0)
    → Sends (f a) D F
    → Sends (from_option (some a) e >>= f) D F
unfolding ◌>>=◌ from_option
some_rule f a e D F h = record { holds = h.holds }
