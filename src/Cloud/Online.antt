-- ===== src/Cloud/Online.antt =====
-- The steps that sign in and publish, in signIn.go and publishResources.go of bridge/device/cloud,
-- seen from a manager that is connected.
use device.Common.{
  ℕ, zero, suc, String, ◌==◌, ◌≡◌, true, false, not, List, [], is_some, is_empty, arith,
}
use device.Schema.Link.{ResourceLink}
use device.Cloud.State.{
  Manager, Sent, sent_sign_in, sent_publish, sent_unpublish, registering, set_provisioning_status,
  pop_ready_to_publish, pop_ready_to_unpublish, update_creds_by_sign_in,
}
use device.Cloud.Monad.{
  Code, Stage, Error, monad, done, require, signing_in, publishing, unpublishing,
}
use device.Cloud.Session.{
  Exchange, save, need_client, do_request, is_changed, is_deleted, sign_in_code, sign_in_request,
  sign_in,
}
use device.Cloud.Publish.{
  links_to_publish, hrefs, publish_links, publish_step, batch, unpublish_round, unpublish_loop,
}
use device.Cloud.Connect.{Env}
use device.Cloud.Hoare.{
  Triple, Anything, weaken, bind_rule, then_rule, modify_rule, require_rule, from_option_rule,
  get_rule, done_rule, if_known, if-Post,
}
use device.Cloud.Invariant.{overlap-drop, Configured}
use device.Cloud.Keeps.{do_request_rule}

-- No connection is lost while a request of the session waits for its reply.
pub record Steady (env : Env) : Type 0 where
  pub sign_in_steady : env.signs_in.dropped ≡ false
  pub publish_steady : env.publishes.dropped ≡ false
  pub unpublish_steady : (k : ℕ) → (env.unpublishes k).dropped ≡ false

pub record Connected (m : Manager) : Type 0 where
  pub configured : Configured m
  pub connected : is_some m.client ≡ true

-- Connected, with an access token.
pub record Tokened (m : Manager) : Type 0 where
  pub connected : Connected m
  pub has_token : (m.creds.access_token == "") ≡ false

-- Signed in over a connection.
pub record Online (m : Manager) : Type 0 where
  pub tokened : Tokened m
  pub signed : m.signed_in ≡ true

pub record Published (m : Manager) : Type 0 where
  pub online : Online m
  pub none_left : m.ready_to_publish ≡ []

need_client-Connected : (s : Stage) → Triple Configured (need_client s) (λ _. Connected) Anything
unfolding need_client monad
need_client-Connected s = record { holds = λ m h. ground arith }

anything : (P : Manager → Type 0) (m : Manager) → P m → Anything m
anything P m h = tt

save-Online : (m : Manager) → Online m → Online (save m)
save-Online m h = ground arith

token_test :
    (s : Manager) (e : Error)
    → Triple
        (λ m. (s ≡ m) × Connected m)
        (require (not (s.creds.access_token == "")) e)
        (λ _. Tokened)
        Anything
unfolding monad
token_test s e = record { holds = λ m h. ground arith }

sign_in_code-Tokened : (c : Code) → Triple Tokened (sign_in_code c) (λ _. Tokened) Anything
unfolding sign_in_code
sign_in_code-Tokened c = record { holds = λ m h. ground arith }

signed_in-Online : (now e : ℕ) (m : Manager) → Tokened m → Online (update_creds_by_sign_in now e m)
unfolding update_creds_by_sign_in
signed_in-Online now e m h = ground arith

registering-Tokened : (m : Manager) → Tokened m → Tokened (set_provisioning_status registering m)
unfolding set_provisioning_status
registering-Tokened m h = ground arith

do_request-Tokened :
    {A : Type 0} (s : Stage) (what : Sent) (x : Exchange A) (n : ℕ)
    → x.dropped ≡ false
    → Triple Tokened (do_request s what x n) (λ _. Tokened) Anything
do_request-Tokened s what x n e =
    do_request_rule s what x n (λ m h. ground arith) (λ m h. rw e h) (anything _)

sign_in_request-Online :
    (now : ℕ) (x : Exchange ℕ) (n : ℕ) (s : Manager)
    → x.dropped ≡ false
    → Triple Connected (sign_in_request now x n) (λ _. Online) Anything
unfolding sign_in_request
sign_in_request-Online now x n s e = bind_rule get_rule λ s'. then_rule (token_test s' _) (
    then_rule (require_rule x.built _ (anything _)) (
      then_rule (modify_rule _ registering-Tokened) (
        bind_rule (do_request-Tokened signing_in sent_sign_in x n e) λ r.
          then_rule (sign_in_code-Tokened r.0) (
            bind_rule (from_option_rule r.1 _ (anything _)) λ expires_in.
              then_rule (modify_rule _ (signed_in-Online now expires_in))
                (modify_rule _ save-Online)))))

already_online :
    (s : Manager)
    → s.signed_in ≡ true
    → Triple (λ m. (s ≡ m) × Connected m) done (λ _. Online) Anything
unfolding monad
already_online s e = record { holds = λ m h. ground arith }

pub sign_in-Online :
    (now : ℕ) (x : Exchange ℕ)
    → x.dropped ≡ false
    → Triple Configured (sign_in now x) (λ _. Online) Anything
unfolding sign_in
sign_in-Online now x e = bind_rule (need_client-Connected signing_in) λ n. bind_rule get_rule λ s.
    if_known s.signed_in (already_online s)
      λ _. weaken (λ m h. h.1) (sign_in_request-Online now x n s e)

pop_publish-Published : (m : Manager) → Online m → Published (pop_ready_to_publish m).1
unfolding pop_ready_to_publish
pop_publish-Published m h = ground arith

do_request-Published :
    {A : Type 0} (s : Stage) (what : Sent) (x : Exchange A) (n : ℕ)
    → x.dropped ≡ false
    → Triple Published (do_request s what x n) (λ _. Published) Anything
do_request-Published s what x n e =
    do_request_rule s what x n (λ m h. ground arith) (λ m h. rw e h) (anything _)

need_client-Published : (s : Stage) → Triple Published (need_client s) (λ _. Published) Anything
unfolding need_client monad
need_client-Published s = record { holds = λ m h. ground arith }

set_flag-Published :
    (m : Manager) → Published m → Published (record m { resources_published = true })
set_flag-Published m h = ground arith

publish_links-Published :
    (x : Exchange (Unit {0})) (links : List ResourceLink)
    → x.dropped ≡ false
    → Triple Published (publish_links x links) (λ _. Published) Anything
unfolding publish_links
publish_links-Published x links e = bind_rule (need_client-Published publishing) λ n.
    then_rule (require_rule x.built _ (anything _)) (
      bind_rule (do_request-Published publishing (sent_publish (hrefs links)) x n e) λ r.
        then_rule (require_rule (is_changed r.0) _ (anything _)) (modify_rule _ set_flag-Published))

pub publish_step-Published :
    (links : List ResourceLink) (x : Exchange (Unit {0}))
    → x.dropped ≡ false
    → Triple Online (publish_step links x) (λ _. Published) Anything
unfolding publish_step monad
publish_step-Published links x e = record {
  holds = λ m h.
      let m' = (pop_ready_to_publish m).1 in
      let chosen = links_to_publish links (pop_ready_to_publish m).0 m' in
      let c = pop_publish-Published m h in
      if-Post _ _ (is_empty chosen) _ _ c ((publish_links-Published x chosen e).holds m' c);
}

unpublish_round-Published :
    (x : Exchange (Unit {0})) (ready : List String)
    → x.dropped ≡ false
    → Triple Published (unpublish_round x ready) (λ _. Published) Anything
unfolding unpublish_round
unpublish_round-Published x ready e = bind_rule (need_client-Published unpublishing) λ n.
    then_rule (require_rule x.built _ (anything _)) (
      bind_rule (do_request-Published unpublishing (sent_unpublish ready) x n e)
        λ r. require_rule (is_deleted r.0) _ (anything _))

pop_unpublish-Published :
    (n : ℕ) (m : Manager) → Published m → Published (pop_ready_to_unpublish n m).1
unfolding pop_ready_to_unpublish
pop_unpublish-Published n m h =
    ground (arith, overlap-drop n m.ready_to_publish m.ready_to_unpublish)

pub unpublish_loop-Published :
    (fuel : ℕ) (xs : ℕ → Exchange (Unit {0})) (k : ℕ)
    → ((k : ℕ) → (xs k).dropped ≡ false)
    → Triple Published (unpublish_loop fuel xs k) (λ _. Published) Anything
unfolding unpublish_loop
unpublish_loop-Published zero xs k e = unfold monad in record { holds = λ m h. tt }
unpublish_loop-Published (suc fuel) xs k e =
    let again = unpublish_loop-Published fuel xs (suc k) e in
    record {
      holds = λ m h.
          let ready = (pop_ready_to_unpublish batch m).0 in
          let m' = (pop_ready_to_unpublish batch m).1 in
          let c = pop_unpublish-Published batch m h in
          if-Post _ _ (is_empty ready) _ _ (done_rule.holds m' c)
            ((then_rule (unpublish_round-Published (xs k) ready (e k)) again).holds m' c);
    }
