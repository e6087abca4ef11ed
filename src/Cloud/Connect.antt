-- ===== src/Cloud/Connect.antt =====
-- bridge/device/cloud/manager.go: dial, connect, the handlers of the event loop, the CoAP POST, and
-- the life of the manager. `Env` is what one run of a handler meets outside the program.
use device.Common.{
  ℕ, String, ◌==◌, Bool, true, false, ◌&&◌, ◌||◌, Option, none, some, List, [], ◌∷◌, if◌then◌else◌,
  is_some,
}
use device.Schema.Link.{ResourceLink}
use device.Cloud.State.{
  uninitialized, registered, Configuration, ConfigurationUpdateRequest, SignUpResponse,
  RefreshTokenResponse, Config, Manager, no_creds, no_update, trigger_runner,
  set_cloud_configuration, set_provisioning_status, set_creds, replace_client, close_client,
  on_close, reset_publishing, publish_resources, unpublish_resources, is_creds_expiring,
}
use device.Cloud.Monad.{
  bad_ca_pool, bad_address, cannot_dial, Result, ok, err, M, ◌>>=◌, ◌>>◌, done, get, modify,
  require, from_option,
}
use device.Cloud.Session.{Exchange, reset_credentials, sign_up, sign_in, refresh_token_step}
use device.Cloud.Publish.{publish_step, unpublish_step}

-- `alive`: the current connection's context is not done. `ca_pool`: GetPool returns no error.
-- `valid_addr`: Endpoint.GetAddr parses the URL. `dialed`: the connection that tcp.Dial returns.
pub record Env : Type 0 where
  pub now : ℕ
  pub later : ℕ
  pub context_done : Bool
  pub alive : Bool
  pub ca_pool : Bool
  pub valid_addr : String → Bool
  pub dialed : Option ℕ
  pub links : List ResourceLink
  pub signs_off : Exchange (Unit {0})
  pub refreshes : Exchange RefreshTokenResponse
  pub signs_up : Exchange SignUpResponse
  pub signs_in : Exchange ℕ
  pub publishes : Exchange (Unit {0})
  pub unpublishes : ℕ → Exchange (Unit {0})

unfoldable pub dial_new : Env → M (Unit {0})
dial_new env = do
  modify close_client
  m ← get
  require env.ca_pool bad_ca_pool
  require (env.valid_addr m.cfg.url) bad_address
  n ← from_option env.dialed cannot_dial
  modify (replace_client (some n))

-- dial
unfoldable pub dial : Env → M (Unit {0})
dial env m = if is_some m.client && env.alive then done m else dial_new env m

-- The functions that connect runs in turn once it is dialled.
unfoldable pub session : Env → Bool → M (Unit {0})
session env refresh = do
  if refresh then refresh_token_step env.now env.refreshes else done
  sign_up env.now env.signs_up
  sign_in env.now env.signs_in
  publish_step env.links env.publishes
  unpublish_step env.unpublishes

abbrev pub close_on_error : Result (Unit {0}) × Manager → Result (Unit {0}) × Manager
close_on_error (ok a, m) = (ok a, m)
close_on_error (err e, m) = (err e, close_client m)

abbrev pub wants_refresh : Env → Manager → Bool
wants_refresh env m = is_creds_expiring env.now env.later m || m.force_refresh_token

-- connect: a failed dial does not close, a failed step does.
unfoldable pub connect : Env → M (Unit {0})
connect env = do
  m ← get
  modify (λ m. if wants_refresh env m then record m { force_refresh_token = false } else m)
  dial env
  λ m'. close_on_error (session env (wants_refresh env m) m')

abbrev pub report : Result (Unit {0}) × Manager → Manager
report (ok a, m) = set_provisioning_status registered m
report (err e, m) = m

unfoldable pub handle_timer : Env → Manager → Manager
handle_timer env m = if m.cfg.url == "" then m else report (connect env m)

unfoldable pub after_reset : Env → Manager → Manager
after_reset env m =
    if m.reconnect
    then close_client (record m { reconnect = false })
    else if m.cfg.url == ""
    then reset_publishing m
    else report (connect env (if m.signed_in then m else reset_publishing m))

unfoldable pub handle_trigger : Env → Bool → Manager → Manager
handle_trigger env reset m =
    after_reset env (if reset then reset_credentials env.context_done env.signs_off true m else m)

pub data PostResponse : Type 0 where
  bad_body : PostResponse
  empty_cloud_id empty_authorization_provider empty_url : PostResponse
  content : Configuration → PostResponse

-- validateConfigurationUpdate
unfoldable pub validate_configuration_update : ConfigurationUpdateRequest → Option PostResponse
validate_configuration_update c =
    if c.cloud_id == ""
    then some empty_cloud_id
    else if c.authorization_provider == ""
    then some empty_authorization_provider
    else if c.url == ""
    then some empty_url
    else none

unfoldable pub accept_configuration : ConfigurationUpdateRequest → Manager → PostResponse × Manager
accept_configuration c m =
    let m' = trigger_runner true (set_cloud_configuration c m) in (content m'.cfg, m')

abbrev pub post_validated :
    Option PostResponse → ConfigurationUpdateRequest → Manager → PostResponse × Manager
post_validated (some e) c m = (e, m)
post_validated none c m = accept_configuration c m

abbrev pub post_decoded : ConfigurationUpdateRequest → Manager → PostResponse × Manager
post_decoded c m =
    if c.url == ""
    then accept_configuration no_update m
    else post_validated (validate_configuration_update c) c m

-- Post, from the decoded body; `none` is a body that does not decode.
unfoldable pub post : Option ConfigurationUpdateRequest → Manager → PostResponse × Manager
post none m = (bad_body, m)
post (some c) m = post_decoded c m

unfoldable pub unregister : Manager → Manager
unregister m = trigger_runner true (set_cloud_configuration no_update m)

-- Reconnect
unfoldable pub request_reconnect : Manager → Manager
request_reconnect m = trigger_runner false (record m { reconnect = true })

-- Close, and the handler of the closed channel `done` in Init.
unfoldable pub stop : Manager → Manager
stop m = if m.stopped then m else close_client (record m { stopped = true })

abbrev no_configuration : Configuration
no_configuration = record {
  authorization_provider = "";
  cloud_id = "";
  url = "";
  provisioning_status = uninitialized;
  authorization_code = "";
}

unfoldable pub import_config : Config → Manager → Manager
import_config c m =
    set_creds
      (record no_creds {
        access_token = c.access_token;
        user_id = c.user_id;
        refresh_token = c.refresh_token;
        valid_until = c.valid_until;
      })
      (set_cloud_configuration
        (record no_update {
          authorization_provider = c.authorization_provider;
          url = c.cloud_url;
          cloud_id = c.cloud_id;
        })
        m)

unfoldable pub zero_manager : ℕ → Manager
zero_manager tick_interval = record {
  tick_interval = tick_interval;
  cfg = no_configuration;
  previous_cloud_ids = [];
  ready_to_publish = [];
  ready_to_unpublish = [];
  creds = no_creds;
  client = none;
  signed_in = false;
  resources_published = false;
  force_refresh_token = false;
  stopped = false;
  reconnect = false;
  trigger = [];
  saves = 0;
  removed_cas = [];
  closed_conns = [];
  sent = [];
}

-- New: `none` where the pool of certificate authorities is not valid.
unfoldable pub new : Bool → ℕ → Config → Option Manager
unfolding zero_manager
new ca_pool_valid tick_interval c =
    if ca_pool_valid then some (import_config c (zero_manager tick_interval)) else none

-- The state change of Init.
unfoldable pub init : Manager → Manager
init m = if m.cfg.url == "" then m else trigger_runner false m

unfoldable pub export_config : Manager → Config
export_config m = record {
  access_token = m.creds.access_token;
  user_id = m.creds.user_id;
  refresh_token = m.creds.refresh_token;
  valid_until = m.creds.valid_until;
  authorization_provider = m.cfg.authorization_provider;
  cloud_id = m.cfg.cloud_id;
  cloud_url = m.cfg.url;
}

-- What the other parts of the program, the cloud and the event loop do to the manager.
pub data Event : Type 0 where
  publishes_resources unpublishes_resources : List String → Event
  posts : Option ConfigurationUpdateRequest → Event
  unregisters reconnects stops : Event
  triggered timed_out : Env → Event
  conn_closed : ℕ → Event

-- The event loop takes the oldest value of the trigger channel.
abbrev pub take_trigger : Env → List Bool → Manager → Manager
take_trigger env [] m = m
take_trigger env (reset ∷ rest) m = handle_trigger env reset (record m { trigger = rest })

-- The handler of `done` removes the channels of the trigger and of the timer from the event loop.
unfoldable pub step : Manager → Event → Manager
step m (publishes_resources hs) = publish_resources hs m
step m (unpublishes_resources hs) = unpublish_resources hs m
step m (posts c) = (post c m).1
step m unregisters = unregister m
step m reconnects = request_reconnect m
step m stops = stop m
step m (triggered env) = if m.stopped then m else take_trigger env m.trigger m
step m (timed_out env) = if m.stopped then m else handle_timer env m
step m (conn_closed n) = on_close n m

unfoldable pub run : Manager → List Event → Manager
run m [] = m
run m (e ∷ es) = run (step m e) es
