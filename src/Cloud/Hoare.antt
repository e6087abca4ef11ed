-- ===== src/Cloud/Hoare.antt =====
-- Triples for the manager's methods: from a state in P, a success leaves Q and an error leaves E.
use device.Common.{Bool, true, false, Option, none, some, ◌≡◌, refl, if◌then◌else◌}
use device.Cloud.State.{Manager}
use device.Cloud.Monad.{
  Error, Result, ok, err, M, bind, ◌>>=◌, ◌>>◌, done, get, modify, require, from_option, monad,
}

abbrev pub Post :
    {A : Type 0} → (A → Manager → Type 0) → (Manager → Type 0) → Result A × Manager → Type 0
Post Q E (ok a, m) = Q a m
Post Q E (err e, m) = E m

pub record Triple {A : Type 0} (P : Manager → Type 0) (c : M A) (Q : A → Manager → Type 0)
    (E : Manager → Type 0) : Type 0 where
  pub holds : (m : Manager) → P m → Post Q E (c m)

bind-Post :
    {A B : Type 0} (Q : A → Manager → Type 0) (R : B → Manager → Type 0) (E : Manager → Type 0)
    (f : A → M B)
    → ((a : A) → Triple (Q a) (f a) R E)
    → (r : Result A × Manager) → Post Q E r
    → Post R E (bind r f)
bind-Post Q R E f h (ok a, m) q = (h a).holds m q
bind-Post Q R E f h (err e, m) q = q

pub bind_rule :
    {A B : Type 0} {P : Manager → Type 0} {c : M A} {Q : A → Manager → Type 0} {f : A → M B}
    {R : B → Manager → Type 0} {E : Manager → Type 0}
    → Triple P c Q E
    → ((a : A) → Triple (Q a) (f a) R E)
    → Triple P (c >>= f) R E
unfolding monad
bind_rule {c = c} {Q = Q} {f = f} {R = R} {E = E} hc hf = record {
  holds = λ m p. bind-Post Q R E f hf (c m) (hc.holds m p);
}

pub then_rule :
    {B : Type 0} {P Q : Manager → Type 0} {c : M (Unit {0})} {k : M B} {R : B → Manager → Type 0}
    {E : Manager → Type 0}
    → Triple P c (λ _. Q) E
    → Triple Q k R E
    → Triple P (c >> k) R E
unfolding monad
then_rule {Q = Q} {c = c} {k = k} {R = R} {E = E} hc hk = record {
  holds = λ m p. bind-Post (λ _. Q) R E (λ _. k) (λ _. hk) (c m) (hc.holds m p);
}

pub modify_rule :
    {P Q E : Manager → Type 0} (g : Manager → Manager)
    → ((m : Manager) → P m → Q (g m))
    → Triple P (modify g) (λ _. Q) E
unfolding monad
modify_rule g h = record { holds = λ m p. h m p }

-- A refused test leaves the state alone.
pub require_rule :
    {P E : Manager → Type 0} (b : Bool) (e : Error)
    → ((m : Manager) → P m → E m)
    → Triple P (require b e) (λ _. P) E
unfolding monad
require_rule true e h = record { holds = λ m p. p }
require_rule false e h = record { holds = λ m p. h m p }

pub from_option_rule :
    {A : Type 0} {P E : Manager → Type 0} (o : Option A) (e : Error)
    → ((m : Manager) → P m → E m)
    → Triple P (from_option o e) (λ _. P) E
unfolding monad
from_option_rule none e h = record { holds = λ m p. h m p }
from_option_rule (some a) e h = record { holds = λ m p. p }

-- A state that is read is the state that stands.
pub get_rule : {P E : Manager → Type 0} → Triple P get (λ s m. (s ≡ m) × P m) E
unfolding monad
get_rule = record { holds = λ m p. (refl, p) }

pub weaken :
    {A : Type 0} {P P' : Manager → Type 0} {c : M A} {Q : A → Manager → Type 0}
    {E : Manager → Type 0}
    → ((m : Manager) → P' m → P m)
    → Triple P c Q E
    → Triple P' c Q E
weaken h t = record { holds = λ m p. t.holds m (h m p) }

pub done_rule : {P E : Manager → Type 0} → Triple P done (λ _. P) E
unfolding monad
done_rule = record { holds = λ m p. p }

pub if_rule :
    {A : Type 0} {P : Manager → Type 0} {c d : M A} {Q : A → Manager → Type 0}
    {E : Manager → Type 0} (b : Bool)
    → Triple P c Q E
    → Triple P d Q E
    → Triple P (if b then c else d) Q E
if_rule true hc hd = hc
if_rule false hc hd = hd

-- The same at one state.
pub if-Post :
    {A : Type 0} (Q : A → Manager → Type 0) (E : Manager → Type 0) (b : Bool)
    (r s : Result A × Manager)
    → Post Q E r
    → Post Q E s
    → Post Q E (if b then r else s)
if-Post Q E true r s hr hs = hr
if-Post Q E false r s hr hs = hs

-- A branch knows its test.
pub if_known :
    {A : Type 0} {P : Manager → Type 0} {c d : M A} {Q : A → Manager → Type 0}
    {E : Manager → Type 0} (b : Bool)
    → (b ≡ true → Triple P c Q E)
    → (b ≡ false → Triple P d Q E)
    → Triple P (if b then c else d) Q E
if_known true hc hd = hc refl
if_known false hc hd = hd refl

abbrev pub Anything : Manager → Type 0
Anything m = Unit

relax-Post :
    {A : Type 0} (Q : A → Manager → Type 0) (E : Manager → Type 0) (r : Result A × Manager)
    → Post Q E r
    → Post Q Anything r
relax-Post Q E (ok a, m) h = h
relax-Post Q E (err e, m) h = tt

-- Forget what an error leaves.
pub relax :
    {A : Type 0} {P : Manager → Type 0} {c : M A} {Q : A → Manager → Type 0} {E : Manager → Type 0}
    → Triple P c Q E
    → Triple P c Q Anything
relax {c = c} {Q = Q} {E = E} t = record { holds = λ m p. relax-Post Q E (c m) (t.holds m p) }
