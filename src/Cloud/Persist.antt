-- ===== src/Cloud/Persist.antt =====
-- The configuration of the manager of bridge/device/cloud: what is saved and read back, what a POST
-- changes, and what a stopped manager does.
use device.Common.{
  ℕ, String, ◌==◌, ◌≡◌, subst, Bool, true, false, not, ◌&&◌, Option, none, some, List, [], ◌∷◌,
  ◌++◌, length, arith, if◌then◌else◌, ltb, ◌⊎◌,
}
use mathlib.Core.Option.{some-injective}
use device.Cloud.State.{
  Config, ConfigurationUpdateRequest, Manager, no_update, set_cloud_configuration, set_creds,
  trigger_runner, close_client, on_close, mark_publish, mark_unpublish, publish_resources,
  unpublish_resources,
}
use device.Cloud.Connect.{
  Event, publishes_resources, unpublishes_resources, posts, unregisters, reconnects, stops,
  triggered, timed_out, conn_closed, validate_configuration_update, accept_configuration, post,
  unregister, request_reconnect, stop, import_config, new, zero_manager, export_config, step, run,
}

exported : (tick : ℕ) (c : Config) → export_config (import_config c (zero_manager tick)) ≡ c
unfolding export_config import_config set_creds set_cloud_configuration zero_manager
exported tick c = ground arith

-- What ExportConfig saves of a manager that New made is the configuration that New was given.
export_config-new :
    (b : Bool) (tick : ℕ) (c : Config) (m : Manager) → new b tick c ≡ some m → export_config m ≡ c
unfolding new
export_config-new true tick c m h =
    subst (λ n. export_config n ≡ c) (some-injective _ _ h) (exported tick c)
export_config-new false tick c m h = cc

abbrev pub complete : ConfigurationUpdateRequest → Bool
complete c = not (c.cloud_id == "") && not (c.authorization_provider == "")

-- A POST without a URL does what Unregister does; a POST with a URL but no cloud ID or provider
-- changes nothing; any other sets the three fields, and puts a reset into the trigger channel unless
-- that is full.
post_cases :
    (c : ConfigurationUpdateRequest) (m : Manager)
    → (((c.url == "") ≡ true) × ((post (some c) m).1 ≡ unregister m))
      ⊎ (((c.url == "") ≡ false) × (complete c ≡ false) × ((post (some c) m).1 ≡ m))
      ⊎ (((c.url == "") ≡ false)
          × (complete c ≡ true)
          × ((post (some c) m).1.cfg.url ≡ c.url)
          × ((post (some c) m).1.cfg.cloud_id ≡ c.cloud_id)
          × ((post (some c) m).1.cfg.authorization_provider ≡ c.authorization_provider)
          × ((post (some c) m).1.trigger
              ≡ (if ltb (length m.trigger) 10 then m.trigger ++ true ∷ [] else m.trigger)))
unfolding post validate_configuration_update accept_configuration unregister trigger_runner
    set_cloud_configuration
post_cases c m = ground arith

-- Stopped, and without a connection.
pub record Stopped (m : Manager) : Type 0 where
  pub is_stopped : m.stopped ≡ true
  pub no_client : m.client ≡ none

mark_publish-Stopped : (hs : List String) (m : Manager) → Stopped m → Stopped (mark_publish hs m)
unfolding mark_publish
mark_publish-Stopped [] m s = s
mark_publish-Stopped (h ∷ hs) m s = mark_publish-Stopped hs _ (ground arith)

mark_unpublish-Stopped :
    (hs : List String) (m : Manager) → Stopped m → Stopped (mark_unpublish hs m)
unfolding mark_unpublish
mark_unpublish-Stopped [] m s = s
mark_unpublish-Stopped (h ∷ hs) m s = mark_unpublish-Stopped hs _ (ground arith)

trigger_runner-Stopped : (b : Bool) (m : Manager) → Stopped m → Stopped (trigger_runner b m)
unfolding trigger_runner
trigger_runner-Stopped b m s = ground arith

set_cloud_configuration-Stopped :
    (c : ConfigurationUpdateRequest) (m : Manager)
    → Stopped m
    → Stopped (set_cloud_configuration c m)
unfolding set_cloud_configuration
set_cloud_configuration-Stopped c m s = ground arith

accept_configuration-Stopped :
    (c : ConfigurationUpdateRequest) (m : Manager)
    → Stopped m
    → Stopped (accept_configuration c m).1
unfolding accept_configuration
accept_configuration-Stopped c m s =
    trigger_runner-Stopped true _ (set_cloud_configuration-Stopped c m s)

post-Stopped :
    (c : Option ConfigurationUpdateRequest) (m : Manager) → Stopped m → Stopped (post c m).1
unfolding post
post-Stopped none m s = s
post-Stopped (some c) m s =
    ground (arith, accept_configuration-Stopped no_update m s, accept_configuration-Stopped c m s)

step-Stopped : (m : Manager) (e : Event) → Stopped m → Stopped (step m e)
unfolding step publish_resources unpublish_resources unregister
step-Stopped m (publishes_resources hs) s =
    trigger_runner-Stopped false _ (mark_publish-Stopped hs m s)
step-Stopped m (unpublishes_resources hs) s =
    trigger_runner-Stopped false _ (mark_unpublish-Stopped hs m s)
step-Stopped m (posts c) s = post-Stopped c m s
step-Stopped m unregisters s =
    trigger_runner-Stopped true _ (set_cloud_configuration-Stopped no_update m s)
step-Stopped m reconnects s =
    unfold request_reconnect in trigger_runner-Stopped false _ (ground arith)
step-Stopped m stops s = unfold stop in (ground arith)
step-Stopped m (triggered env) s = ground arith
step-Stopped m (timed_out env) s = ground arith
step-Stopped m (conn_closed n) s = unfold on_close in (ground arith)

run-Stopped : (m : Manager) (es : List Event) → Stopped m → Stopped (run m es)
unfolding run
run-Stopped m [] s = s
run-Stopped m (e ∷ es) s = run-Stopped (step m e) es (step-Stopped m e s)

stop-Stopped : (m : Manager) → m.stopped ≡ false → Stopped (stop m)
unfolding stop close_client
stop-Stopped m h = ground arith

-- After Close a manager that was not stopped before never has a connection again, whatever happens.
run-stop :
    (m : Manager) (es : List Event) → m.stopped ≡ false → (run (step m stops) es).client ≡ none
unfolding step
run-stop m es h = (run-Stopped (stop m) es (stop-Stopped m h)).no_client
