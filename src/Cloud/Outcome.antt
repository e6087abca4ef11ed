-- ===== src/Cloud/Outcome.antt =====
-- What connect of bridge/device/cloud/manager.go achieves: a session that holds, or none at all.
use device.Cloud.Online.{
  Steady, Published, sign_in-Online, publish_step-Published, unpublish_loop-Published,
}
use device.Common.{
  ℕ, suc, ◌==◌, ◌≡◌, refl, Bool, true, false, ◌&&◌, none, some, [], is_some, length, arith,
}
use device.Cloud.State.{Manager, close_client}
use device.Cloud.Monad.{Result, ok, err, monad, get, done}
use device.Cloud.Session.{Exchange}
use device.Cloud.Publish.{unpublish_step}
use device.Cloud.Connect.{Env, dial_new, dial, session, connect, close_on_error, wants_refresh}
use device.Cloud.Hoare.{
  Post, Triple, Anything, relax, bind_rule, then_rule, modify_rule, require_rule, from_option_rule,
  done_rule, if_rule, if-Post,
}
use device.Cloud.Invariant.{Inv, Configured}
use device.Cloud.Keeps.{refresh_token_step-Configured, sign_up-Configured}
use device.Cloud.History.{forget_refresh-Keeps, replace_client-Keeps}
use device.Cloud.Batches.{unpublish_step-emptied}

-- Signed in over a connection with an access token, and no href left to publish or to unpublish.
pub record Synced (m : Manager) : Type 0 where
  pub signed : m.signed_in ≡ true
  pub connected : is_some m.client ≡ true
  pub has_token : (m.creds.access_token == "") ≡ false
  pub published : m.ready_to_publish ≡ []
  pub unpublished : m.ready_to_unpublish ≡ []

pub record Offline (m : Manager) : Type 0 where
  pub no_client : m.client ≡ none
  pub signed_out : m.signed_in ≡ false

synced :
    (r : Result (Unit {0}) × Manager)
    → Post (λ _. Published) Anything r
    → (r.0 ≡ ok tt → r.1.ready_to_unpublish ≡ [])
    → Post (λ _. Synced) Anything r
synced (ok a, m) h e = record {
  signed = h.online.signed;
  connected = h.online.tokened.connected.connected;
  has_token = h.online.tokened.has_token;
  published = h.none_left;
  unpublished = e refl;
}
synced (err e', m) h e = tt

unpublish_step-Synced :
    (xs : ℕ → Exchange (Unit {0}))
    → ((k : ℕ) → (xs k).dropped ≡ false)
    → Triple Published (unpublish_step xs) (λ _. Synced) Anything
unpublish_step-Synced xs e = record {
  holds = λ m h.
      synced (unpublish_step xs m)
        (unfold unpublish_step in
          (unpublish_loop-Published (suc (length m.ready_to_unpublish)) xs 0 e).holds m h)
        (unpublish_step-emptied xs m);
}

session-Synced :
    (env : Env) (refresh : Bool)
    → Steady env
    → Triple Configured (session env refresh) (λ _. Synced) Anything
unfolding session
session-Synced env refresh s =
    then_rule
      (relax (if_rule refresh (refresh_token_step-Configured env.now env.refreshes) done_rule))
      (then_rule (relax (sign_up-Configured env.now env.signs_up)) (
        then_rule (sign_in-Online env.now env.signs_in s.sign_in_steady) (
          then_rule (publish_step-Published env.links env.publishes s.publish_steady)
            (unpublish_step-Synced env.unpublishes s.unpublish_steady))))

close_on_error-Offline :
    (r : Result (Unit {0}) × Manager)
    → Post (λ _. Synced) Anything r
    → Post (λ _. Synced) Offline (close_on_error r)
unfolding close_client
close_on_error-Offline (ok a, m) h = h
close_on_error-Offline (err e, m) h = record { no_client = refl; signed_out = refl }

record Closed (m : Manager) : Type 0 where
  closed_configured : Configured m
  closed_offline : Offline m

close_client-Closed : (m : Manager) → Configured m → Closed (close_client m)
unfolding close_client
close_client-Closed m h = ground arith

read-Closed : Triple Closed get (λ _. Closed) Offline
unfolding monad
read-Closed = record { holds = λ m h. h }

dial_new-Offline : (env : Env) → Triple Configured (dial_new env) (λ _. Configured) Offline
unfolding dial_new
dial_new-Offline env = then_rule (modify_rule _ close_client-Closed) (
    bind_rule read-Closed λ m. then_rule (require_rule env.ca_pool _ (λ m' h. h.closed_offline)) (
      then_rule (require_rule (env.valid_addr m.cfg.url) _ (λ m' h. h.closed_offline)) (
        bind_rule (from_option_rule env.dialed _ (λ m' h. h.closed_offline))
          λ n. modify_rule _ (λ m' h. replace_client-Keeps (some n) m' h.closed_configured))))

dial-Offline : (env : Env) → Triple Configured (dial env) (λ _. Configured) Offline
unfolding dial monad
dial-Offline env = record {
  holds = λ m h.
      if-Post (λ _. Configured) Offline (is_some m.client && env.alive) (done m) (dial_new env m) h
        ((dial_new-Offline env).holds m h);
}

read-Any : {P E : Manager → Type 0} → Triple P get (λ _. P) E
unfolding monad
read-Any = record { holds = λ m h. h }

connect-Synced : (env : Env) → Steady env → Triple Configured (connect env) (λ _. Synced) Offline
unfolding connect
connect-Synced env s = bind_rule read-Any λ m.
    then_rule (modify_rule _ (forget_refresh-Keeps env)) (
      then_rule (dial-Offline env) (record {
        holds = λ m' h.
            close_on_error-Offline _ ((session-Synced env (wants_refresh env m) s).holds m' h);
      }))

-- connect, from a manager that keeps the invariant and has a URL, while no connection is lost during
-- a request: if it succeeds, the manager is signed in over a connection with an access token, and no
-- href is left to publish or to unpublish; if it fails, there is no connection and nobody signed in.
pub connect_outcome :
    (env : Env) (m : Manager)
    → Inv m
    → (m.cfg.url == "") ≡ false
    → Steady env
    → Post (λ _. Synced) Offline (connect env m)
connect_outcome env m inv e s = (connect-Synced env s).holds m (record { inv = inv; has_url = e })
