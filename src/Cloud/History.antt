-- ===== src/Cloud/History.antt =====
-- The invariant over the handlers of bridge/device/cloud/manager.go, and over every history.
use device.Common.{
  ℕ, ◌==◌, ◌≡◌, refl, ap, subst, Bool, true, false, Option, none, some, List, [], ◌∷◌, ◌&&◌,
  is_some, arith, length, if◌then◌else◌,
}
use mathlib.Core.Option.{some-injective}
use device.Cloud.State.{
  Config, SignUpResponse, Manager, ConfigurationUpdateRequest, no_update, set_creds,
  set_provisioning_status, replace_client, close_client, on_close, reset_publishing,
}
use device.Cloud.Monad.{Code, Result, ok, err, monad, done, exec}
use device.Cloud.Session.{
  Exchange, need_client, do_request, sign_off_code, sign_off, reset_credentials,
}
use device.Cloud.Connect.{
  Env, Event, publishes_resources, unpublishes_resources, posts, unregisters, reconnects, stops,
  triggered, timed_out, conn_closed, dial_new, dial, session, connect, close_on_error, report,
  wants_refresh, handle_timer, after_reset, handle_trigger, accept_configuration, post, unregister,
  request_reconnect, stop, import_config, zero_manager, new, take_trigger, step, run,
}
use device.Cloud.Hoare.{
  Post, Triple, done_rule, if_rule, if-Post, bind_rule, then_rule, modify_rule, require_rule,
  from_option_rule,
}
use device.Cloud.Invariant.{
  Inv, Configured, Configured-Inv, publish_resources-Inv, unpublish_resources-Inv, Keeps,
  trigger_runner-Inv, reset_session-Inv, set_cloud_configuration-Inv,
}
use device.Cloud.Keeps.{
  on_close-Inv, read-Configured, refresh_token_step-Configured, sign_up-Configured,
  sign_in-Configured, publish_step-Configured, unpublish_step-Configured,
}

session-Configured :
    (env : Env) (refresh : Bool) → Triple Configured (session env refresh) (λ _. Configured) Inv
unfolding session
session-Configured env refresh =
    then_rule (if_rule refresh (refresh_token_step-Configured env.now env.refreshes) done_rule) (
      then_rule (sign_up-Configured env.now env.signs_up) (
        then_rule (sign_in-Configured env.now env.signs_in) (
          then_rule (publish_step-Configured env.links env.publishes)
            (unpublish_step-Configured env.unpublishes))))

close_client-Inv : (m : Manager) → Inv m → Inv (close_client m)
unfolding close_client
close_client-Inv m h = ground arith

pub close_client-Keeps : Keeps close_client
unfolding close_client
close_client-Keeps m h = ground arith

pub replace_client-Keeps : (c : Option ℕ) → Keeps (replace_client c)
unfolding replace_client
replace_client-Keeps c m h = ground arith

dial_new-Configured : (env : Env) → Triple Configured (dial_new env) (λ _. Configured) Inv
unfolding dial_new
dial_new-Configured env = then_rule (modify_rule _ close_client-Keeps) (
    bind_rule read-Configured λ m. then_rule (require_rule env.ca_pool _ Configured-Inv) (
      then_rule (require_rule (env.valid_addr m.cfg.url) _ Configured-Inv) (
        bind_rule (from_option_rule env.dialed _ Configured-Inv)
          λ n. modify_rule _ (replace_client-Keeps (some n)))))

dial-Configured : (env : Env) → Triple Configured (dial env) (λ _. Configured) Inv
unfolding dial monad
dial-Configured env = record {
  holds = λ m h.
      if-Post (λ _. Configured) Inv (is_some m.client && env.alive) (done m) (dial_new env m) h
        ((dial_new-Configured env).holds m h);
}

close_on_error-Configured :
    (r : Result (Unit {0}) × Manager)
    → Post (λ _. Configured) Inv r
    → Post (λ _. Configured) Inv (close_on_error r)
close_on_error-Configured (ok a, m) h = h
close_on_error-Configured (err e, m) h = close_client-Inv m h

pub forget_refresh-Keeps :
    (env : Env)
    → Keeps (λ m. if wants_refresh env m then record m { force_refresh_token = false } else m)
forget_refresh-Keeps env m h = go (wants_refresh env m)
  where
    go : (b : Bool) → Configured (if b then record m { force_refresh_token = false } else m)
    go b = ground arith

connect-Configured : (env : Env) → Triple Configured (connect env) (λ _. Configured) Inv
unfolding connect
connect-Configured env = bind_rule read-Configured λ m.
    then_rule (modify_rule _ (forget_refresh-Keeps env)) (
      then_rule (dial-Configured env) (record {
        holds = λ m' h.
            close_on_error-Configured _ ((session-Configured env (wants_refresh env m)).holds m' h);
      }))

report-Inv : (r : Result (Unit {0}) × Manager) → Post (λ _. Configured) Inv r → Inv (report r)
unfolding set_provisioning_status
report-Inv (ok a, m) h = ground arith
report-Inv (err e, m) h = h

if-Inv :
    (b : Bool) (m n : Manager) → (b ≡ true → Inv m) → (b ≡ false → Inv n) → Inv (if b then m else n)
if-Inv true m n hm hn = hm refl
if-Inv false m n hm hn = hn refl

handle_timer-Inv : (env : Env) (m : Manager) → Inv m → Inv (handle_timer env m)
unfolding handle_timer
handle_timer-Inv env m h =
    if-Inv (m.cfg.url == "") m (report (connect env m)) (λ _. h)
      λ e.
        report-Inv (connect env m)
          ((connect-Configured env).holds m (record { inv = h; has_url = e }))

reset_publishing-Inv : (m : Manager) → Inv m → Inv (reset_publishing m)
unfolding reset_publishing
reset_publishing-Inv m h = ground arith

ready_to_connect :
    (m : Manager)
    → Inv m
    → (m.cfg.url == "") ≡ false
    → Configured (if m.signed_in then m else reset_publishing m)
unfolding reset_publishing
ready_to_connect m h e = ground arith

after_reset-Inv : (env : Env) (m : Manager) → Inv m → Inv (after_reset env m)
unfolding after_reset
after_reset-Inv env m h =
    if-Inv m.reconnect _ _ (λ _. close_client-Inv _ (ground arith))
      λ _.
        if-Inv (m.cfg.url == "") (reset_publishing m) _ (λ _. reset_publishing-Inv m h)
          λ e.
            report-Inv (connect env (if m.signed_in then m else reset_publishing m))
              ((connect-Configured env).holds _ (ready_to_connect m h e))

sign_off_code-Inv :
    (r : Result (Code × Option (Unit {0})) × Manager) → Inv r.1 → Inv (sign_off_code r).1
unfolding set_provisioning_status monad
sign_off_code-Inv (ok r, m) h = ground arith
sign_off_code-Inv (err e, m) h = ground arith

sign_off-Inv :
    (b : Bool) (x : Exchange (Unit {0})) (m : Manager) → Inv m → Inv (exec (sign_off b x) m)
unfolding sign_off do_request need_client monad on_close set_provisioning_status
sign_off-Inv b x m h = ground arith

reset_credentials-Inv :
    (b : Bool) (x : Exchange (Unit {0})) (c : Bool) (m : Manager)
    → Inv m
    → Inv (reset_credentials b x c m)
unfolding reset_credentials
reset_credentials-Inv b x c m h =
    reset_session-Inv _ (if-Inv c (exec (sign_off b x) m) m (λ _. sign_off-Inv b x m h) (λ _. h))

handle_trigger-Inv : (env : Env) (b : Bool) (m : Manager) → Inv m → Inv (handle_trigger env b m)
unfolding handle_trigger
handle_trigger-Inv env b m h = after_reset-Inv env _ (
    if-Inv b (reset_credentials env.context_done env.signs_off true m) m
      (λ _. reset_credentials-Inv env.context_done env.signs_off true m h) (λ _. h))

take_trigger-Inv :
    (env : Env) (t : List Bool) (m : Manager) → m.trigger ≡ t → Inv m → Inv (take_trigger env t m)
take_trigger-Inv env [] m e h = h
take_trigger-Inv env (b ∷ rest) m e h =
    handle_trigger-Inv env b (record m { trigger = rest })
      (record {
        disjoint = h.disjoint;
        bounded = omega (arith, h.bounded, ap length e);
        token = h.token;
        unconfigured = h.unconfigured;
      })

accept_configuration-Inv :
    (c : ConfigurationUpdateRequest) (m : Manager) → Inv m → Inv (accept_configuration c m).1
unfolding accept_configuration
accept_configuration-Inv c m h = trigger_runner-Inv true _ (set_cloud_configuration-Inv c m h)

post-Inv : (c : Option ConfigurationUpdateRequest) (m : Manager) → Inv m → Inv (post c m).1
unfolding post
post-Inv none m h = h
post-Inv (some c) m h =
    ground (arith, accept_configuration-Inv no_update m h, accept_configuration-Inv c m h)

stop-Inv : (m : Manager) → Inv m → Inv (stop m)
unfolding stop close_client
stop-Inv m h = ground arith

reconnecting-Inv : (m : Manager) → Inv m → Inv (record m { reconnect = true })
reconnecting-Inv m h = ground arith

-- Every event keeps the invariant, whatever the cloud answers and whenever connections are lost.
step-Inv : (m : Manager) (e : Event) → Inv m → Inv (step m e)
unfolding step
step-Inv m (publishes_resources hs) h = publish_resources-Inv hs m h
step-Inv m (unpublishes_resources hs) h = unpublish_resources-Inv hs m h
step-Inv m (posts c) h = post-Inv c m h
step-Inv m unregisters h =
    unfold unregister in trigger_runner-Inv true _ (set_cloud_configuration-Inv no_update m h)
step-Inv m reconnects h =
    unfold request_reconnect in trigger_runner-Inv false _ (reconnecting-Inv m h)
step-Inv m stops h = stop-Inv m h
step-Inv m (triggered env) h =
    if-Inv m.stopped m _ (λ _. h) (λ _. take_trigger-Inv env m.trigger m refl h)
step-Inv m (timed_out env) h = if-Inv m.stopped m _ (λ _. h) (λ _. handle_timer-Inv env m h)
step-Inv m (conn_closed n) h = on_close-Inv n m h

run-Inv : (m : Manager) (es : List Event) → Inv m → Inv (run m es)
unfolding run
run-Inv m [] h = h
run-Inv m (e ∷ es) h = run-Inv (step m e) es (step-Inv m e h)

zero_manager-Inv : (tick : ℕ) → Inv (zero_manager tick)
unfolding zero_manager
zero_manager-Inv tick = ground arith

set_creds-Inv : (c : SignUpResponse) (m : Manager) → Inv m → Inv (set_creds c m)
unfolding set_creds
set_creds-Inv c m h = ground arith

import_config-Inv : (c : Config) (m : Manager) → Inv m → Inv (import_config c m)
unfolding import_config
import_config-Inv c m h = set_creds-Inv _ _ (set_cloud_configuration-Inv _ m h)

-- Every manager that New returns, after any events at all: no href waits to be both published and
-- unpublished, the trigger channel holds ten values at most, a signed-in manager has an access
-- token, and without a URL its status is `uninitialized`.
pub run-new-Inv :
    (ca_pool_valid : Bool) (tick : ℕ) (c : Config) (m : Manager) (es : List Event)
    → new ca_pool_valid tick c ≡ some m
    → Inv (run m es)
unfolding new
run-new-Inv true tick c m es h =
    run-Inv m es (subst Inv (some-injective _ _ h) (import_config-Inv c _ (zero_manager-Inv tick)))
run-new-Inv false tick c m es h = cc
