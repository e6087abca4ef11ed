-- ===== src/Cloud/Examples.antt =====
-- The theorems on bridge/device/cloud at concrete managers.
use device.Common.{
  String, ◌≡◌, ◌≢◌, refl, true, false, none, some, List, [], ◌∷◌, arith, length, map, All, ◌≤◌, ◌<◌,
}
use device.Common.Keys.{has}
use device.Schema.Link.{ResourceLink, has_type}
use device.Cloud.State.{
  Configuration, ConfigurationUpdateRequest, SignUpResponse, Config, Manager, registered, no_creds,
  sent_unpublish, is_creds_expiring, publish_resources, pop_ready_to_unpublish,
  pop_ready_to_publish,
}
use device.Cloud.Monad.{
  Code, changed, deleted, publishing, no_reply, at, out_of_fuel, ok, err, monad, done, fail, get,
  modify, require, from_option,
}
use device.Cloud.Session.{Exchange, need_client, do_request}
use device.Cloud.Publish.{
  publish_step, unpublish_step, unpublish_loop, unpublish_round, publish_links, links_to_publish,
  patch_device_link,
}
use device.Cloud.Connect.{
  Env, publishes_resources, reconnects, stops, triggered, connect, wants_refresh, new,
  import_config, zero_manager, run,
}
use device.Cloud.Hoare.{Post}
use device.Cloud.Ready.{publish_resources-has}
use device.Cloud.Invariant.{Inv}
use device.Cloud.History.{run-new-Inv}
use device.Cloud.Outcome.{Synced, Offline, connect_outcome}
use device.Cloud.Batches.{flatten, unpublish_step-ends, unpublish_step-sends}
use device.Cloud.Renewal.{is_creds_expiring_window, connect-drops_refresh, publish_step-loses}

abbrev cloud_config : Configuration
cloud_config = record {
  authorization_provider = "provider";
  cloud_id = "id";
  url = "coaps+tcp://cloud";
  provisioning_status = registered;
  authorization_code = "code";
}

abbrev token : SignUpResponse
token = record no_creds {
  access_token = "token";
  user_id = "user";
  refresh_token = "refresh";
  valid_until = 5000;
}

-- Registered and connected, with hrefs to publish and to unpublish.
abbrev busy : Manager
busy = record {
  tick_interval = 10;
  cfg = cloud_config;
  previous_cloud_ids = [];
  ready_to_publish = "/a" ∷ [];
  ready_to_unpublish = "/b" ∷ "/c" ∷ [];
  creds = token;
  client = some 7;
  signed_in = false;
  resources_published = true;
  force_refresh_token = false;
  stopped = false;
  reconnect = false;
  trigger = [];
  saves = 0;
  removed_cas = [];
  closed_conns = [];
  sent = [];
}

busy-Inv : Inv busy
busy-Inv = record {
  disjoint = refl;
  bounded = omega arith;
  token = λ h. refl;
  unconfigured = λ h. cc;
}

abbrev replied : {A : Type 0} → Code → A → Exchange A
replied c a = record { built = true; dropped = false; reply = some (c, some a) }

abbrev silent : {A : Type 0} → Exchange A
silent = record { built = true; dropped = false; reply = none }

abbrev link : ResourceLink
link = record {
  id = "";
  href = "/a";
  resource_types = [];
  interfaces = [];
  policy = none;
  endpoints = [];
  anchor = "";
  device_id = "d";
  instance_id = 0;
  title = "";
  supported_content_types = [];
}

abbrev good_env : Env
good_env = record {
  now = 100;
  later = 100;
  context_done = false;
  alive = true;
  ca_pool = true;
  valid_addr = λ s. true;
  dialed = some 8;
  links = link ∷ [];
  signs_off = replied deleted tt;
  refreshes =
      replied changed (record { access_token = "new"; refresh_token = "r"; expires_in = 60 });
  signs_up = replied changed token;
  signs_in = replied changed 60;
  publishes = replied changed tt;
  unpublishes = λ k. replied deleted tt;
}

abbrev saved : Config
saved = record {
  access_token = "token";
  user_id = "user";
  refresh_token = "refresh";
  valid_until = 5000;
  authorization_provider = "provider";
  cloud_id = "id";
  cloud_url = "coaps+tcp://cloud";
}

publish_resources-has_example :
    (has "/b" (publish_resources ("/b" ∷ []) busy).ready_to_publish ≡ true)
    × (has "/b" (publish_resources ("/b" ∷ []) busy).ready_to_unpublish ≡ false)
publish_resources-has_example = publish_resources-has ("/b" ∷ []) busy "/b"

run-new-Inv_example : Inv (
    run
      (import_config saved (zero_manager 10))
      (publishes_resources ("/a" ∷ []) ∷ triggered good_env ∷ reconnects ∷ stops ∷ []))
unfolding new
run-new-Inv_example =
    run-new-Inv true 10 saved (import_config saved (zero_manager 10))
      (publishes_resources ("/a" ∷ []) ∷ triggered good_env ∷ reconnects ∷ stops ∷ []) refl

connect_outcome_example : Post (λ _. Synced) Offline (connect good_env busy)
connect_outcome_example =
    connect_outcome good_env busy busy-Inv refl
      (record { sign_in_steady = refl; publish_steady = refl; unpublish_steady = λ k. refl })

unpublish_step-ends_example : (unpublish_step (λ k. silent) busy).0 ≢ err out_of_fuel
unpublish_step-ends_example = unpublish_step-ends (λ k. silent) busy

unpublish_step-sends_example :
    (bs : List (List String)) × ((unpublish_step
        (λ k. replied deleted tt)
        busy).1.ready_to_unpublish
      ≡ [])
    × ((unpublish_step (λ k. replied deleted tt) busy).1.sent ≡ map sent_unpublish bs)
    × (flatten bs ≡ "/b" ∷ "/c" ∷ [])
    × All (λ b. (length b ≤ 10) × (0 < length b)) bs
unfolding unpublish_step unpublish_loop unpublish_round pop_ready_to_unpublish need_client
    do_request monad done fail get modify require from_option
unpublish_step-sends_example = unpublish_step-sends (λ k. replied deleted tt) busy refl

is_creds_expiring_window_example : is_creds_expiring 4990 4990 busy ≡ true
is_creds_expiring_window_example = is_creds_expiring_window 4990 busy (omega arith)

-- The manager after a sign-in that the cloud has refused.
abbrev refused : Manager
refused = record busy { client = none; force_refresh_token = true }

connect-drops_refresh_example :
    ((connect (record good_env { dialed = none }) refused).0 ≢ ok tt)
    × ((connect (record good_env { dialed = none }) refused).1.creds ≡ token)
    × (wants_refresh good_env (connect (record good_env { dialed = none }) refused).1
        ≡ is_creds_expiring good_env.now good_env.later refused)
connect-drops_refresh_example =
    connect-drops_refresh (record good_env { dialed = none }) good_env refused refl refl

publish_step-loses_example :
    publish_step (link ∷ []) (replied changed tt) (publish_step (link ∷ []) silent busy).1
    ≡ (ok tt, (publish_step (link ∷ []) silent busy).1)
unfolding publish_step links_to_publish publish_links patch_device_link has_type
    pop_ready_to_publish need_client do_request monad done fail get modify require from_option
publish_step-loses_example =
    publish_step-loses (link ∷ []) (link ∷ []) silent (replied changed tt) (at publishing no_reply)
      busy refl refl

abbrev update : ConfigurationUpdateRequest
update = record {
  authorization_provider = "p";
  url = "u";
  authorization_code = "c";
  cloud_id = "i";
}
