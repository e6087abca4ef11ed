-- ===== src/Client/Own/Trace.antt =====
-- What a step of client/core/ownDevice.go sends, as rules that follow the steps of a do block: on a
-- success a given sequence of requests, on an error a beginning of it.
pub mod Rules
use device.Common.{
  ℕ, ◌+◌, String, ◌≡◌, refl, sym, ap, ◌∙◌, subst, Bool, true, false, Option, none, some, List, [],
  ◌∷◌, ◌++◌, map, arith, append-nil, append_assoc,
}
use mathlib.Core.List.{map-append}
use device.Client.Own.Requests.{
  Conn, owner_conn, Request, select_otm, set_device_id, get_pstat, get_doxm, get_csr,
  set_operational_mode, set_operational_state, set_credentials, set_owner_id, set_pstat_owner,
  set_acl_owner, set_owned, delete_acl, set_acl, OperationalState, AccessControl, reset, Error,
  OwnerCredential, pairwise, identity, trust_ca,
}
use device.Client.Own.Monad
use device.Client.Own.Monad.{
  Sent, Peer, State, Result, ok, err, M, bind, ◌>>=◌, ◌>>◌, pure, throw, require, from_option,
  read_device_id, dial, close_after, closing, send, update,
}
use device.Client.Own.Transfer.{disown, disown_on_error, or_disown}

-- A credential without the values that come from the device, from the signer or from chance.
pub data CredentialKind : Type 0 where
  pairwise_for : String → CredentialKind
  identity_certificate : CredentialKind
  trust_ca_for : String → CredentialKind

abbrev pub credential_kind : OwnerCredential → CredentialKind
credential_kind (pairwise owner psk) = pairwise_for owner
credential_kind (identity device_id chain) = identity_certificate
credential_kind (trust_ca owner root) = trust_ca_for owner

-- A request without such values.
pub data Kind : Type 0 where
  selects_otm : ℕ → Kind
  sets_device_id reads_pstat reads_doxm reads_csr : Kind
  sets_mode : ℕ → Kind
  enters : OperationalState → Kind
  sets_credentials : String → List CredentialKind → Kind
  sets_owner_id sets_pstat_owner sets_acl_owner sets_owned : String → Kind
  deletes_acl : Kind
  sets_acl : List AccessControl → Kind

abbrev pub kind : Request → Kind
kind (select_otm n) = selects_otm n
kind (set_device_id id) = sets_device_id
kind get_pstat = reads_pstat
kind get_doxm = reads_doxm
kind get_csr = reads_csr
kind (set_operational_mode n) = sets_mode n
kind (set_operational_state s) = enters s
kind (set_credentials owner cs) = sets_credentials owner (map credential_kind cs)
kind (set_owner_id owner) = sets_owner_id owner
kind (set_pstat_owner owner) = sets_pstat_owner owner
kind (set_acl_owner owner) = sets_acl_owner owner
kind (set_owned owner) = sets_owned owner
kind (delete_acl href) = deletes_acl
kind (set_acl href acl) = sets_acl acl

abbrev pub Script : Type 0
Script = List (Conn × Kind)

abbrev pub kinds : List Sent → Script
kinds = map λ q. (q.0, kind q.1)

abbrev pub IsPrefix : Script → Script → Type 0
IsPrefix ks ls = (rest : Script) × (ks ++ rest ≡ ls)

-- From one state to another: requests in D were sent, and as many connections closed as opened.
pub record Moved (s : State) (D : Script → Type 0) (s' : State) : Type 0 where
  pub script : Script
  pub sends : kinds s'.sent ≡ kinds s.sent ++ script
  pub in_script : D script
  pub balanced : s'.opened + s.closed ≡ s'.closed + s.opened

abbrev pub After :
    {A : Type 0} → State → (Script → Type 0) → (Script → Type 0) → Result A × State → Type 0
After s D F (ok a, s') = Moved s D s'
After s D F (err e, s') = Moved s F s'

pub record Sends {A : Type 0} (c : M A) (D F : Script → Type 0) : Type 0 where
  pub holds : (s : State) → After s D F (c s)

abbrev pub Trace : {A : Type 0} → M A → Script → Type 0
Trace c ks = Sends c (λ l. l ≡ ks) (λ l. IsPrefix l ks)

pub unmoved : (s : State) (D : Script → Type 0) → D [] → Moved s D s
unmoved s D d = record {
  script = [];
  sends = sym (append-nil _);
  in_script = d;
  balanced = omega arith;
}

pub Moved-trans :
    (s s' s'' : State) (ks : Script) (D D' : Script → Type 0)
    → Moved s (λ l. l ≡ ks) s'
    → Moved s' D s''
    → ((l : Script) → D l → D' (ks ++ l))
    → Moved s D' s''
Moved-trans s s' s'' ks D D' m n f = record {
  script = ks ++ n.script;
  sends =
      n.sends
      ∙ (ap (λ l. l ++ n.script) (m.sends ∙ ap (λ l. kinds s.sent ++ l) m.in_script)
          ∙ append_assoc (kinds s.sent) ks n.script);
  in_script = f n.script n.in_script;
  balanced = omega (arith, m.balanced, n.balanced);
}

pub Moved-map :
    (s s' : State) (D D' : Script → Type 0)
    → ((l : Script) → D l → D' l)
    → Moved s D s'
    → Moved s D' s'
Moved-map s s' D D' f m = record {
  script = m.script;
  sends = m.sends;
  in_script = f m.script m.in_script;
  balanced = m.balanced;
}

After-trans :
    {A : Type 0} (s s' : State) (ks : Script) (D F D' F' : Script → Type 0) (r : Result A × State)
    → Moved s (λ l. l ≡ ks) s'
    → After s' D F r
    → ((l : Script) → D l → D' (ks ++ l))
    → ((l : Script) → F l → F' (ks ++ l))
    → After s D' F' r
After-trans s s' ks D F D' F' (ok a, t) m n f g = Moved-trans s s' t ks D D' m n f
After-trans s s' ks D F D' F' (err e, t) m n f g = Moved-trans s s' t ks F F' m n g

After-bind :
    {A B : Type 0} (f : A → M B) (s : State) (ks : Script) (E D F D' F' : Script → Type 0)
    (r : Result A × State)
    → After s (λ l. l ≡ ks) E r
    → ((a : A) → Sends (f a) D F)
    → ((l : Script) → E l → F' l)
    → ((l : Script) → D l → D' (ks ++ l))
    → ((l : Script) → F l → F' (ks ++ l))
    → After s D' F' (bind r f)
After-bind f s ks E D F D' F' (ok a, s') m h e d g =
    After-trans s s' ks D F D' F' (f a s') m ((h a).holds s') d g
After-bind f s ks E D F D' F' (err x, s') m h e d g = Moved-map s s' E F' e m

pub bind_sends :
    {A B : Type 0} {c : M A} {f : A → M B} (ks : Script) (E D F D' F' : Script → Type 0)
    → Sends c (λ l. l ≡ ks) E
    → ((a : A) → Sends (f a) D F)
    → ((l : Script) → E l → F' l)
    → ((l : Script) → D l → D' (ks ++ l))
    → ((l : Script) → F l → F' (ks ++ l))
    → Sends (c >>= f) D' F'
unfolding ◌>>=◌
bind_sends {c = c} {f = f} ks E D F D' F' h k e d g = record {
  holds = λ s. After-bind f s ks E D F D' F' (c s) (h.holds s) k e d g;
}

IsPrefix-append : (ks ls l : Script) → IsPrefix l ls → IsPrefix (ks ++ l) (ks ++ ls)
IsPrefix-append ks ls l p = (p.0, append_assoc ks l p.0 ∙ ap (λ x. ks ++ x) p.1)

pub bind_rule :
    {A B : Type 0} {c : M A} {f : A → M B} (ks ls : Script)
    → Trace c ks
    → ((a : A) → Trace (f a) ls)
    → Trace (c >>= f) (ks ++ ls)
bind_rule ks ls h k =
    bind_sends ks _ _ _ _ _ h k
      (λ l p. (p.0 ++ ls, sym (append_assoc l p.0 ls) ∙ ap (λ x. x ++ ls) p.1))
      (λ l e. ap (λ x. ks ++ x) e) (λ l p. IsPrefix-append ks ls l p)

pub then_rule :
    {A B : Type 0} {c : M A} {k : M B} (ks ls : Script)
    → Trace c ks
    → Trace k ls
    → Trace (c >> k) (ks ++ ls)
unfolding ◌>>◌
then_rule ks ls h k = bind_rule ks ls h (λ a. k)

After-assoc :
    {A B C : Type 0} (s : State) (D F : Script → Type 0) (r : Result A × State) (f : A → M B)
    (g : B → M C)
    → After s D F (bind r (λ a. f a >>= g))
    → After s D F (bind (bind r f) g)
unfolding ◌>>=◌
After-assoc s D F (ok a, t) f g h = h
After-assoc s D F (err e, t) f g h = h

-- A do block within another is the one do block.
pub assoc_rule :
    {A B C : Type 0} (c : M A) (f : A → M B) (g : B → M C) (ks : Script)
    → Trace (c >>= λ a. f a >>= g) ks
    → Trace ((c >>= f) >>= g) ks
unfolding ◌>>=◌
assoc_rule c f g ks h = record { holds = λ s. After-assoc s _ _ (c s) f g (h.holds s) }

pub pure_rule : {A : Type 0} (a : A) → Trace (pure a) []
unfolding pure
pure_rule a = record { holds = λ s. unmoved s _ refl }

pub then_assoc_rule :
    {A B C : Type 0} (c : M A) (k : M B) (g : B → M C) (ks : Script)
    → Trace (c >> (k >>= g)) ks
    → Trace ((c >> k) >>= g) ks
unfolding ◌>>◌
then_assoc_rule c k g ks h = assoc_rule c (λ a. k) g ks h

pub pure_then_rule :
    {A B : Type 0} (a : A) (g : A → M B) (ks : Script) → Trace (g a) ks → Trace (pure a >>= g) ks
unfolding pure ◌>>=◌
pure_then_rule a g ks h = record { holds = h.holds }
