-- ===== src/Cloud/State.antt =====
-- bridge/device/cloud/manager.go and config.go, pkg/ocf/cloud/request.go, schema/cloud: the data of
-- the manager, and the operations on its locked fields. Every method that takes the mutex is one
-- function on the record. The fields of the configuration that no code of the manager writes
-- (ResourceTypes, Interfaces, Name, LastErrorCode) are left out.
use device.Common.{
  ℕ, ◌+◌, ◌*◌, ◌-◌, ◌%◌, ◌/◌, ◌^◌, String, ◌==◌, Bool, true, false, Option, none, some, List, [],
  ◌∷◌, ◌++◌, if◌then◌else◌, ltb, eqb, length, take, drop,
}
use device.Common.Keys.{insert, delete}

-- The status of the configuration resource; `deregistering` is signOff.go's own.
pub data ProvisioningStatus : Type 0 where
  uninitialized ready_to_register registering registered failed_status : ProvisioningStatus
  deregistering : ProvisioningStatus

pub record Configuration : Type 0 where
  pub authorization_provider : String
  pub cloud_id : String
  pub url : String
  pub provisioning_status : ProvisioningStatus
  pub authorization_code : String

pub record ConfigurationUpdateRequest : Type 0 where
  pub authorization_provider : String
  pub url : String
  pub authorization_code : String
  pub cloud_id : String

-- A time is a count of nanoseconds since January 1, year 1, so that 0 is Go's zero time. An int64
-- is its bit pattern, a number below 2 ^ 64.
pub record SignUpResponse : Type 0 where
  pub access_token : String
  pub user_id : String
  pub refresh_token : String
  pub redirect_uri : String
  pub expires_in : ℕ  -- int64
  pub valid_until : ℕ

pub record RefreshTokenResponse : Type 0 where
  pub access_token : String
  pub refresh_token : String
  pub expires_in : ℕ  -- int64

-- The saved configuration, `Config`.
pub record Config : Type 0 where
  pub access_token : String
  pub user_id : String
  pub refresh_token : String
  pub valid_until : ℕ
  pub authorization_provider : String
  pub cloud_id : String
  pub cloud_url : String

-- A request that the manager sent over its connection: which one, and the hrefs it is about.
pub data Sent : Type 0 where
  sent_sign_up sent_sign_in sent_refresh sent_sign_off : Sent
  sent_publish sent_unpublish : List String → Sent

-- `client` is the number of the live connection. `saves`, `removed_cas`, `closed_conns` and `sent`
-- record the calls of `save`, of `removeCloudCAs`, of `Conn.Close` and of `Conn.Do`.
pub record Manager : Type 0 where
  pub tick_interval : ℕ
  pub cfg : Configuration
  pub previous_cloud_ids : List String
  pub ready_to_publish : List String
  pub ready_to_unpublish : List String
  pub creds : SignUpResponse
  pub client : Option ℕ
  pub signed_in : Bool
  pub resources_published : Bool
  pub force_refresh_token : Bool
  pub stopped : Bool
  pub reconnect : Bool
  pub trigger : List Bool
  pub saves : ℕ
  pub removed_cas : List (List String)
  pub closed_conns : List ℕ
  pub sent : List Sent

abbrev pub no_creds : SignUpResponse
no_creds = record {
  access_token = "";
  user_id = "";
  refresh_token = "";
  redirect_uri = "";
  expires_in = 0;
  valid_until = 0;
}

abbrev pub no_update : ConfigurationUpdateRequest
no_update = record { authorization_provider = ""; url = ""; authorization_code = ""; cloud_id = "" }

-- make(chan bool, 10)
abbrev pub trigger_capacity : ℕ
trigger_capacity = 10

-- triggerRunner: a send that is dropped when the channel is full.
unfoldable pub trigger_runner : Bool → Manager → Manager
trigger_runner reset m =
    if ltb (length m.trigger) trigger_capacity
    then record m { trigger = m.trigger ++ reset ∷ [] }
    else m

unfoldable pub set_cloud_configuration : ConfigurationUpdateRequest → Manager → Manager
set_cloud_configuration c m =
    let cfg' = λ (s : ProvisioningStatus). record (m.cfg) {
      authorization_provider = c.authorization_provider;
      cloud_id = c.cloud_id;
      url = c.url;
      authorization_code = c.authorization_code;
      provisioning_status = s;
    } in
    let m' = record m { previous_cloud_ids = m.previous_cloud_ids ++ m.cfg.cloud_id ∷ [] } in
    if c.url == ""
    then record m' { cfg = cfg' uninitialized; ready_to_publish = []; ready_to_unpublish = [] }
    else record m' { cfg = cfg' ready_to_register }

unfoldable pub set_provisioning_status : ProvisioningStatus → Manager → Manager
set_provisioning_status s m = record m { cfg = record (m.cfg) { provisioning_status = s } }

unfoldable pub set_creds : SignUpResponse → Manager → Manager
set_creds c m = record m { creds = c; signed_in = false }

-- popPreviousCloudIDs, and the call of removeCloudCAs with what it returned.
unfoldable pub remove_previous_cloud_ids : Manager → Manager
remove_previous_cloud_ids m = record m {
  removed_cas = m.removed_cas ++ m.previous_cloud_ids ∷ [];
  previous_cloud_ids = [];
}

unfoldable pub replace_client : Option ℕ → Manager → Manager
replace_client c m = record m { signed_in = false; client = c }

-- The connection that `close` closes, if there is one.
abbrev pub opened : Option ℕ → List ℕ
opened none = []
opened (some n) = n ∷ []

unfoldable pub close_client : Manager → Manager
unfolding replace_client
close_client m = record (replace_client none m) { closed_conns = m.closed_conns ++ opened m.client }

-- The callback of conn.AddOnClose: it acts only if the connection is still the current one.
abbrev same_conn : Option ℕ → ℕ → Bool
same_conn none n = false
same_conn (some k) n = eqb k n

unfoldable pub on_close : ℕ → Manager → Manager
on_close n m = if same_conn m.client n then record m { client = none; signed_in = false } else m

unfoldable pub reset_publishing : Manager → Manager
reset_publishing m = record m { ready_to_publish = []; ready_to_unpublish = [] }

unfoldable pub pop_ready_to_publish : Manager → List String × Manager
pop_ready_to_publish m = (m.ready_to_publish, record m { ready_to_publish = [] })

-- popReadyToUnpublishResources: at most `count` hrefs in the order of the map.
unfoldable pub pop_ready_to_unpublish : ℕ → Manager → List String × Manager
pop_ready_to_unpublish count m = (
  take count m.ready_to_unpublish,
  record m { ready_to_unpublish = drop count m.ready_to_unpublish },
)

-- The loops of PublishResources and UnpublishResources.
unfoldable pub mark_publish : List String → Manager → Manager
mark_publish [] m = m
mark_publish (h ∷ hs) m = mark_publish hs (record m {
  ready_to_publish = insert h m.ready_to_publish;
  ready_to_unpublish = delete h m.ready_to_unpublish;
})

unfoldable pub mark_unpublish : List String → Manager → Manager
mark_unpublish [] m = m
mark_unpublish (h ∷ hs) m = mark_unpublish hs (record m {
  ready_to_unpublish = insert h m.ready_to_unpublish;
  ready_to_publish = delete h m.ready_to_publish;
})

unfoldable pub publish_resources : List String → Manager → Manager
publish_resources hrefs m = trigger_runner false (mark_publish hrefs m)

unfoldable pub unpublish_resources : List String → Manager → Manager
unpublish_resources hrefs m = trigger_runner false (mark_unpublish hrefs m)

-- validUntil: the product of a duration wraps as an int64; -1 is the pattern 2 ^ 64 - 1.
unfoldable pub valid_until : ℕ → ℕ → ℕ
valid_until now expires_in =
    let d = (expires_in * 1000000000) % 2 ^ 64 in
    if eqb expires_in (2 ^ 64 - 1)
    then 0
    else if ltb d (2 ^ 63)
    then now + d
    else now - (2 ^ 64 - d)

-- isCredsExpiring, with the clock at the call of time.Until and at that of time.Now. A duration
-- saturates at 2 ^ 63 - 1; the tick interval is below 2 ^ 62 nanoseconds.
unfoldable pub is_creds_expiring : ℕ → ℕ → Manager → Bool
is_creds_expiring now later m =
    let v = m.creds.valid_until in
    if eqb v 0
    then false
    else if ltb v (now + m.tick_interval * 2)
    then true
    else let diff = if ltb (v - now) (2 ^ 63) then v - now else 2 ^ 63 - 1 in
      ltb (v - diff / 3) later

unfoldable pub update_creds_by_sign_in : ℕ → ℕ → Manager → Manager
update_creds_by_sign_in now expires_in m = record m {
  creds = record (m.creds) { expires_in = expires_in; valid_until = valid_until now expires_in };
  signed_in = true;
}

unfoldable pub update_creds_by_refresh : ℕ → RefreshTokenResponse → Manager → Manager
update_creds_by_refresh now r m = record m {
  creds = record (m.creds) {
    access_token = r.access_token;
    refresh_token = r.refresh_token;
    valid_until = valid_until now r.expires_in;
  };
  signed_in = false;
}
