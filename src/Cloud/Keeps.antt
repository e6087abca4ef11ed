-- ===== src/Cloud/Keeps.antt =====
-- Every step of a session keeps the invariant, and on success the URL: the methods of
-- bridge/device/cloud in the files signUp.go, signIn.go, refreshToken.go and publishResources.go.
use device.Schema.Link.{ResourceLink}
use device.Cloud.Publish.{
  links_to_publish, hrefs, publish_links, publish_step, batch, unpublish_round, unpublish_loop,
  unpublish_step,
}
use device.Cloud.Invariant.{
  Inv, Configured, Tokened, Configured-Inv, Tokened-Inv, Keeps, overlap-drop, cleanup-Inv,
}
use device.Common.{
  ℕ, zero, suc, String, ◌==◌, ◌≡◌, Bool, not, Option, none, some, List, arith, length, is_empty,
  if◌then◌else◌,
}
use device.Cloud.State.{
  registering, Manager, Sent, sent_publish, sent_unpublish, sent_refresh, sent_sign_up,
  sent_sign_in, RefreshTokenResponse, SignUpResponse, set_provisioning_status, set_creds, on_close,
  pop_ready_to_publish, pop_ready_to_unpublish, update_creds_by_sign_in, update_creds_by_refresh,
}
use device.Cloud.Hoare.{
  Triple, done_rule, if_rule, if-Post, bind_rule, then_rule, modify_rule, require_rule,
  from_option_rule, get_rule,
}
use device.Cloud.Monad.{
  Code, publishing, unpublishing, Cause, Stage, Error, refreshing, signing_up, signing_in,
  signing_off, monad, get, require,
}
use device.Cloud.Session.{
  Exchange, save, refuse, expect_code, is_changed, is_deleted, record_sent, need_client, do_request,
  sign_up_request, sign_up, sign_in_rejected, sign_in_code, sign_in_request, sign_in, refresh_code,
  refresh_request, refresh_token_step,
}

registering-Keeps : Keeps (set_provisioning_status registering)
unfolding set_provisioning_status
registering-Keeps m c = ground arith

record_sent-Keeps : (s : Sent) → Keeps (record_sent s)
record_sent-Keeps s m c = ground arith

pub on_close-Inv : (n : ℕ) (m : Manager) → Inv m → Inv (on_close n m)
unfolding on_close
on_close-Inv n m h = ground arith

lost-Keeps : (b : Bool) (n : ℕ) → Keeps (λ m. if b then on_close n m else m)
unfolding on_close
lost-Keeps b n m c = ground arith

pub do_request_rule :
    {A : Type 0} {P E : Manager → Type 0} (s : Stage) (what : Sent) (x : Exchange A) (n : ℕ)
    → ((m : Manager) → P m → P (record_sent what m))
    → ((m : Manager) → P m → P (if x.dropped then on_close n m else m))
    → ((m : Manager) → P m → E m)
    → Triple P (do_request s what x n) (λ _. P) E
unfolding do_request
do_request_rule s what x n sent lost failed =
    then_rule (modify_rule _ sent)
      (then_rule (modify_rule _ lost) (from_option_rule x.reply _ failed))

do_request-Configured :
    {A : Type 0} (s : Stage) (what : Sent) (x : Exchange A) (n : ℕ)
    → Triple Configured (do_request s what x n) (λ _. Configured) Inv
do_request-Configured s what x n =
    do_request_rule s what x n (record_sent-Keeps what) (lost-Keeps x.dropped n) Configured-Inv

pub need_client-Configured : (s : Stage) → Triple Configured (need_client s) (λ _. Configured) Inv
unfolding need_client monad
need_client-Configured s = record { holds = λ m h. ground arith }

refresh_code-Configured : (c : Code) → Triple Configured (refresh_code c) (λ _. Configured) Inv
unfolding refresh_code
refresh_code-Configured c = record { holds = λ m h. ground (arith, cleanup-Inv m h.inv) }

update_creds_by_refresh-Keeps :
    (now : ℕ) (r : RefreshTokenResponse) → Keeps (update_creds_by_refresh now r)
unfolding update_creds_by_refresh
update_creds_by_refresh-Keeps now r m h = ground arith

save-Keeps : Keeps save
save-Keeps m h = ground arith

refresh_request-Configured :
    (now : ℕ) (x : Exchange RefreshTokenResponse)
    → Triple Configured (refresh_request now x) (λ _. Configured) Inv
unfolding refresh_request
refresh_request-Configured now x = bind_rule (need_client-Configured refreshing) λ n.
    then_rule (require_rule x.built _ Configured-Inv) (
      then_rule (modify_rule _ registering-Keeps) (
        bind_rule (do_request-Configured refreshing sent_refresh x n) λ r.
          then_rule (refresh_code-Configured r.0) (
            bind_rule (from_option_rule r.1 _ Configured-Inv) λ body.
              then_rule (modify_rule _ (update_creds_by_refresh-Keeps now body))
                (modify_rule _ save-Keeps))))

-- refreshToken
pub refresh_token_step-Configured :
    (now : ℕ) (x : Exchange RefreshTokenResponse)
    → Triple Configured (refresh_token_step now x) (λ _. Configured) Inv
unfolding refresh_token_step monad
refresh_token_step-Configured now x = record {
  holds = λ m h. ground (arith, (refresh_request-Configured now x).holds m h);
}

set_creds-Keeps : (c : SignUpResponse) → Keeps (set_creds c)
unfolding set_creds
set_creds-Keeps c m h = ground arith

refuse-Configured :
    (s : Stage) (c : Option Cause) → Triple Configured (refuse s c) (λ _. Configured) Inv
refuse-Configured s none = record { holds = λ m h. h }
refuse-Configured s (some c) = record { holds = λ m h. h.inv }

expect_code-Configured :
    (good : Code → Bool) (s : Stage) (c : Code)
    → Triple Configured (expect_code good s c) (λ _. Configured) Inv
expect_code-Configured good s c = require_rule (good c) _ Configured-Inv

pub read-Configured : Triple Configured get (λ _. Configured) Inv
unfolding monad
read-Configured = record { holds = λ m h. h }

sign_up_request-Configured :
    (now : ℕ) (x : Exchange SignUpResponse)
    → Triple Configured (sign_up_request now x) (λ _. Configured) Inv
unfolding sign_up_request
sign_up_request-Configured now x = bind_rule read-Configured λ m.
    then_rule (refuse-Configured signing_up _) (
      bind_rule (need_client-Configured signing_off) λ n.
        then_rule (require_rule x.built _ Configured-Inv) (
          then_rule (modify_rule _ registering-Keeps) (
            bind_rule (do_request-Configured signing_up sent_sign_up x n) λ r.
              then_rule (expect_code-Configured is_changed signing_up r.0) (
                bind_rule (from_option_rule r.1 _ Configured-Inv) λ body.
                  then_rule (modify_rule _ (set_creds-Keeps _)) (modify_rule _ save-Keeps)))))

pub sign_up-Configured :
    (now : ℕ) (x : Exchange SignUpResponse)
    → Triple Configured (sign_up now x) (λ _. Configured) Inv
unfolding sign_up monad
sign_up-Configured now x = record {
  holds = λ m h. ground (arith, (sign_up_request-Configured now x).holds m h);
}

registering-Tokened : (m : Manager) → Tokened m → Tokened (set_provisioning_status registering m)
unfolding set_provisioning_status
registering-Tokened m h = ground arith

lost-Tokened :
    (b : Bool) (n : ℕ) (m : Manager) → Tokened m → Tokened (if b then on_close n m else m)
unfolding on_close
lost-Tokened b n m h = ground arith

do_request-Tokened :
    {A : Type 0} (s : Stage) (what : Sent) (x : Exchange A) (n : ℕ)
    → Triple Tokened (do_request s what x n) (λ _. Tokened) Inv
do_request-Tokened s what x n =
    do_request_rule s what x n (λ m h. ground arith) (lost-Tokened x.dropped n) Tokened-Inv

token_test :
    (s : Manager) (e : Error)
    → Triple
        (λ m. (s ≡ m) × Configured m)
        (require (not (s.creds.access_token == "")) e)
        (λ _. Tokened)
        Inv
unfolding monad
token_test s e = record { holds = λ m h. ground arith }

sign_in_code-Tokened : (c : Code) → Triple Tokened (sign_in_code c) (λ _. Tokened) Inv
unfolding sign_in_code sign_in_rejected
sign_in_code-Tokened c = record { holds = λ m h. ground (arith, cleanup-Inv m h.configured.inv) }

signed_in-Configured :
    (now expires_in : ℕ) (m : Manager)
    → Tokened m
    → Configured (update_creds_by_sign_in now expires_in m)
unfolding update_creds_by_sign_in
signed_in-Configured now expires_in m h = ground arith

sign_in_request-Configured :
    (now : ℕ) (x : Exchange ℕ) (n : ℕ)
    → Triple Configured (sign_in_request now x n) (λ _. Configured) Inv
unfolding sign_in_request
sign_in_request-Configured now x n = bind_rule get_rule λ s. then_rule (token_test s _) (
    then_rule (require_rule x.built _ Tokened-Inv) (
      then_rule (modify_rule _ registering-Tokened) (
        bind_rule (do_request-Tokened signing_in sent_sign_in x n) λ r.
          then_rule (sign_in_code-Tokened r.0) (
            bind_rule (from_option_rule r.1 _ Tokened-Inv) λ e.
              then_rule (modify_rule _ (signed_in-Configured now e)) (modify_rule _ save-Keeps)))))

pub sign_in-Configured :
    (now : ℕ) (x : Exchange ℕ) → Triple Configured (sign_in now x) (λ _. Configured) Inv
unfolding sign_in
sign_in-Configured now x = bind_rule (need_client-Configured signing_in) λ n.
    bind_rule read-Configured
      λ m. if_rule m.signed_in done_rule (sign_in_request-Configured now x n)

-- publishResources
pop_publish-Configured : (m : Manager) → Configured m → Configured (pop_ready_to_publish m).1
unfolding pop_ready_to_publish
pop_publish-Configured m h = ground arith

pop_unpublish-Configured :
    (n : ℕ) (m : Manager) → Configured m → Configured (pop_ready_to_unpublish n m).1
unfolding pop_ready_to_unpublish
pop_unpublish-Configured n m h =
    ground (arith, overlap-drop n m.ready_to_publish m.ready_to_unpublish)

publish_links-Configured :
    (x : Exchange (Unit {0})) (links : List ResourceLink)
    → Triple Configured (publish_links x links) (λ _. Configured) Inv
unfolding publish_links
publish_links-Configured x links = bind_rule (need_client-Configured publishing) λ n.
    then_rule (require_rule x.built _ Configured-Inv) (
      bind_rule (do_request-Configured publishing (sent_publish (hrefs links)) x n) λ r.
        then_rule (expect_code-Configured is_changed publishing r.0)
          (modify_rule _ (λ m h. ground arith)))

pub publish_step-Configured :
    (links : List ResourceLink) (x : Exchange (Unit {0}))
    → Triple Configured (publish_step links x) (λ _. Configured) Inv
unfolding publish_step monad
publish_step-Configured links x = record {
  holds = λ m h.
      let m' = (pop_ready_to_publish m).1 in
      let chosen = links_to_publish links (pop_ready_to_publish m).0 m' in
      let c = pop_publish-Configured m h in
      if-Post _ _ (is_empty chosen) _ _ c ((publish_links-Configured x chosen).holds m' c);
}

unpublish_round-Configured :
    (x : Exchange (Unit {0})) (ready : List String)
    → Triple Configured (unpublish_round x ready) (λ _. Configured) Inv
unfolding unpublish_round
unpublish_round-Configured x ready = bind_rule (need_client-Configured unpublishing) λ n.
    then_rule (require_rule x.built _ Configured-Inv) (
      bind_rule (do_request-Configured unpublishing (sent_unpublish ready) x n)
        λ r. expect_code-Configured is_deleted unpublishing r.0)

unpublish_loop-Configured :
    (fuel : ℕ) (xs : ℕ → Exchange (Unit {0})) (k : ℕ)
    → Triple Configured (unpublish_loop fuel xs k) (λ _. Configured) Inv
unfolding unpublish_loop
unpublish_loop-Configured zero xs k = unfold monad in record { holds = λ m h. h.inv }
unpublish_loop-Configured (suc fuel) xs k =
    let again = unpublish_loop-Configured fuel xs (suc k) in
    record {
      holds = λ m h.
          let ready = (pop_ready_to_unpublish batch m).0 in
          let m' = (pop_ready_to_unpublish batch m).1 in
          let c = pop_unpublish-Configured batch m h in
          if-Post _ _ (is_empty ready) _ _ (done_rule.holds m' c)
            ((then_rule (unpublish_round-Configured (xs k) ready) again).holds m' c);
    }

pub unpublish_step-Configured :
    (xs : ℕ → Exchange (Unit {0})) → Triple Configured (unpublish_step xs) (λ _. Configured) Inv
unfolding unpublish_step
unpublish_step-Configured xs = record {
  holds = λ m h. (unpublish_loop-Configured (suc (length m.ready_to_unpublish)) xs 0).holds m h;
}
