-- ===== src/Cloud/Session.antt =====
-- bridge/device/cloud/signUp.go, signIn.go, signOff.go, refreshToken.go, and the resets of
-- manager.go. What the cloud does with one request is an `Exchange`: whether the request could be
-- built, whether the connection was lost meanwhile (its OnClose ran before Do returned), and the
-- reply, if any, with its body, if it could be decoded.
use device.Common.{
  ℕ, ◌+◌, String, ◌==◌, Bool, true, false, not, Option, none, some, [], ◌∷◌, ◌++◌, if◌then◌else◌,
}
use device.Cloud.State.{
  uninitialized, registering, deregistering, Manager, SignUpResponse, RefreshTokenResponse, Sent,
  sent_sign_up, sent_sign_in, sent_refresh, sent_sign_off, no_creds, no_update, trigger_runner,
  set_cloud_configuration, set_provisioning_status, set_creds, remove_previous_cloud_ids,
  close_client, on_close, valid_until, update_creds_by_sign_in, update_creds_by_refresh,
}
use device.Cloud.Monad.{
  Code, changed, deleted, unauthorized, Stage, refreshing, signing_up, signing_in, signing_off,
  Cause, no_connection, not_built, no_reply, bad_body, context_done, missing_access_token,
  missing_authorization_code, missing_authorization_provider, unexpected_code, at, Result, ok, err,
  M, ◌>>=◌, ◌>>◌, done, get, modify, require, from_option, exec,
}

pub record Exchange (A : Type 0) : Type 0 where
  pub built : Bool
  pub dropped : Bool
  pub reply : Option (Code × Option A)

unfoldable pub need_client : Stage → M ℕ
need_client s m = from_option m.client (at s no_connection) m

abbrev pub record_sent : Sent → Manager → Manager
record_sent s m = record m { sent = m.sent ++ s ∷ [] }

-- client.Do
unfoldable pub do_request : {A : Type 0} → Stage → Sent → Exchange A → ℕ → M (Code × Option A)
do_request s what x n = do
  modify (record_sent what)
  modify (λ m. if x.dropped then on_close n m else m)
  from_option x.reply (at s no_reply)

abbrev pub expect_code : (Code → Bool) → Stage → Code → M (Unit {0})
expect_code good s c = require (good c) (at s (unexpected_code c))

abbrev pub is_changed : Code → Bool
is_changed changed = true
is_changed _ = false

abbrev pub is_deleted : Code → Bool
is_deleted deleted = true
is_deleted _ = false

abbrev pub is_unauthorized : Code → Bool
is_unauthorized unauthorized = true
is_unauthorized _ = false

abbrev pub save : Manager → Manager
save m = record m { saves = m.saves + 1 }

abbrev pub sign_off_code : Result (Code × Option (Unit {0})) × Manager → Result (Unit {0}) × Manager
sign_off_code (ok r, m) =
    expect_code is_deleted signing_off r.0 (set_provisioning_status uninitialized m)
sign_off_code (err e, m) = (err e, set_provisioning_status uninitialized m)

-- signOff; its deferred status change runs on every return after Do.
unfoldable pub sign_off : Bool → Exchange (Unit {0}) → M (Unit {0})
sign_off ctx_done x = do
  n ← need_client signing_off
  require (not ctx_done) (at signing_off context_done)
  require x.built (at signing_off not_built)
  modify (set_provisioning_status deregistering)
  λ m. sign_off_code (do_request signing_off sent_sign_off x n m)

-- The part of resetCredentials after the sign-off.
unfoldable pub reset_session : Manager → Manager
reset_session m =
    let m' = set_creds no_creds m in
    let m'' = record m' {
      resources_published = false;
      force_refresh_token = false;
      reconnect = false;
    } in
    remove_previous_cloud_ids (save (close_client m''))

unfoldable pub reset_credentials : Bool → Exchange (Unit {0}) → Bool → Manager → Manager
reset_credentials ctx_done x sign_off_too m =
    reset_session (if sign_off_too then exec (sign_off ctx_done x) m else m)

-- cleanup: it resets with no sign-off.
unfoldable pub cleanup : Manager → Manager
cleanup m = trigger_runner false (reset_session (set_cloud_configuration no_update m))

-- MakeSignUpRequest: the cause of its refusal.
unfoldable pub sign_up_refusal : String → String → Option Cause
sign_up_refusal code provider =
    if code == ""
    then some missing_authorization_code
    else if provider == ""
    then some missing_authorization_provider
    else none

abbrev pub refuse : Stage → Option Cause → M (Unit {0})
refuse s none m = (ok tt, m)
refuse s (some c) m = (err (at s c), m)

-- signUp; without a connection its error is that of a sign-off.
unfoldable pub sign_up_request : ℕ → Exchange SignUpResponse → M (Unit {0})
sign_up_request now x = do
  m ← get
  refuse signing_up (sign_up_refusal m.cfg.authorization_code m.cfg.authorization_provider)
  n ← need_client signing_off
  require x.built (at signing_up not_built)
  modify (set_provisioning_status registering)
  r ← do_request signing_up sent_sign_up x n
  expect_code is_changed signing_up r.0
  body ← from_option r.1 (at signing_up bad_body)
  modify (set_creds (record body { valid_until = valid_until now body.expires_in }))
  modify save

unfoldable pub sign_up : ℕ → Exchange SignUpResponse → M (Unit {0})
sign_up now x m = if not (m.creds.access_token == "") then done m else sign_up_request now x m

-- What signIn does before it reports an unexpected code.
unfoldable pub sign_in_rejected : Code → Manager → Manager
sign_in_rejected c m =
    if is_unauthorized c
    then (if m.creds.refresh_token == ""
        then cleanup m
        else record m { force_refresh_token = true })
    else m

unfoldable pub sign_in_code : Code → M (Unit {0})
sign_in_code c m =
    if is_changed c
    then (ok tt, m)
    else (err (at signing_in (unexpected_code c)), sign_in_rejected c m)

-- signIn from MakeSignInRequest on, over the connection that it took before.
unfoldable pub sign_in_request : ℕ → Exchange ℕ → ℕ → M (Unit {0})
sign_in_request now x n = do
  m ← get
  require (not (m.creds.access_token == "")) (at signing_in missing_access_token)
  require x.built (at signing_in not_built)
  modify (set_provisioning_status registering)
  r ← do_request signing_in sent_sign_in x n
  sign_in_code r.0
  expires_in ← from_option r.1 (at signing_in bad_body)
  modify (update_creds_by_sign_in now expires_in)
  modify save

unfoldable pub sign_in : ℕ → Exchange ℕ → M (Unit {0})
sign_in now x = do
  n ← need_client signing_in
  m ← get
  if m.signed_in then done else sign_in_request now x n

unfoldable pub refresh_code : Code → M (Unit {0})
refresh_code c m =
    if is_changed c
    then (ok tt, m)
    else (err (at refreshing (unexpected_code c)), if is_unauthorized c then cleanup m else m)

unfoldable pub refresh_request : ℕ → Exchange RefreshTokenResponse → M (Unit {0})
refresh_request now x = do
  n ← need_client refreshing
  require x.built (at refreshing not_built)
  modify (set_provisioning_status registering)
  r ← do_request refreshing sent_refresh x n
  refresh_code r.0
  body ← from_option r.1 (at refreshing bad_body)
  modify (update_creds_by_refresh now body)
  modify save

-- refreshToken
unfoldable pub refresh_token_step : ℕ → Exchange RefreshTokenResponse → M (Unit {0})
refresh_token_step now x m = if m.creds.refresh_token == "" then done m else refresh_request now x m
