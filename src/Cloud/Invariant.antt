-- ===== src/Cloud/Invariant.antt =====
-- What holds of the manager between two events, whatever the cloud answers.
use device.Common.{
  ℕ, zero, suc, ◌≤◌, String, ◌==◌, ◌≡◌, refl, Bool, true, false, List, [], ◌∷◌, arith, length,
  length-append, drop,
}
use device.Common.Keys.{insert-delete-overlap, delete-insert-overlap, has, overlap}
use device.Cloud.State.{
  mark_publish, mark_unpublish, publish_resources, unpublish_resources, ConfigurationUpdateRequest,
  uninitialized, Manager, ConfigurationUpdateRequest, no_update, trigger_runner,
  set_cloud_configuration, set_creds, remove_previous_cloud_ids, close_client,
}
use device.Cloud.Hoare.{}
use device.Cloud.Session.{reset_session, cleanup}

-- No href waits to be both published and unpublished; the trigger channel keeps to its capacity; a
-- signed-in manager holds an access token; without a URL the status is `uninitialized`.
pub record Inv (m : Manager) : Type 0 where
  pub disjoint : overlap m.ready_to_publish m.ready_to_unpublish ≡ false
  pub bounded : length m.trigger ≤ 10
  pub token : m.signed_in ≡ true → (m.creds.access_token == "") ≡ false
  pub unconfigured : (m.cfg.url == "") ≡ true → m.cfg.provisioning_status ≡ uninitialized

pub overlap-nil : (xs : List String) → overlap xs [] ≡ false
overlap-nil [] = refl
overlap-nil (x ∷ xs) = overlap-nil xs

has-drop : (n : ℕ) (j : String) (ys : List String) → has j ys ≡ false → has j (drop n ys) ≡ false
has-drop zero j ys h = h
has-drop (suc n) j [] h = refl
has-drop (suc n) j (y ∷ ys) h = has-drop n j ys (ground arith)

pub overlap-drop :
    (n : ℕ) (xs ys : List String) → overlap xs ys ≡ false → overlap xs (drop n ys) ≡ false
overlap-drop n [] ys h = refl
overlap-drop n (x ∷ xs) ys h = ground (arith, has-drop n x ys, overlap-drop n xs ys)

pub trigger_runner-Inv : (b : Bool) (m : Manager) → Inv m → Inv (trigger_runner b m)
unfolding trigger_runner
trigger_runner-Inv b m h = ground (arith, length-append m.trigger (b ∷ []))

pub reset_session-Inv : (m : Manager) → Inv m → Inv (reset_session m)
unfolding reset_session remove_previous_cloud_ids close_client set_creds
reset_session-Inv m h = ground arith

pub set_cloud_configuration-Inv :
    (c : ConfigurationUpdateRequest) (m : Manager) → Inv m → Inv (set_cloud_configuration c m)
unfolding set_cloud_configuration
set_cloud_configuration-Inv c m h = ground arith

pub cleanup-Inv : (m : Manager) → Inv m → Inv (cleanup m)
unfolding cleanup
cleanup-Inv m h =
    trigger_runner-Inv false _ (reset_session-Inv _ (set_cloud_configuration-Inv no_update m h))

-- A manager that is registering: the invariant, and a URL.
pub record Configured (m : Manager) : Type 0 where
  pub inv : Inv m
  pub has_url : (m.cfg.url == "") ≡ false

pub record Tokened (m : Manager) : Type 0 where
  pub configured : Configured m
  pub has_token : (m.creds.access_token == "") ≡ false

pub Configured-Inv : (m : Manager) → Configured m → Inv m
Configured-Inv m c = c.inv

pub Tokened-Inv : (m : Manager) → Tokened m → Inv m
Tokened-Inv m c = c.configured.inv

abbrev pub Keeps : (Manager → Manager) → Type 0
Keeps g = (m : Manager) → Configured m → Configured (g m)

mark_publish-Inv : (hs : List String) (m : Manager) → Inv m → Inv (mark_publish hs m)
unfolding mark_publish
mark_publish-Inv [] m i = i
mark_publish-Inv (h ∷ hs) m i =
    mark_publish-Inv hs _
      (ground (arith, insert-delete-overlap h m.ready_to_publish m.ready_to_unpublish))

mark_unpublish-Inv : (hs : List String) (m : Manager) → Inv m → Inv (mark_unpublish hs m)
unfolding mark_unpublish
mark_unpublish-Inv [] m i = i
mark_unpublish-Inv (h ∷ hs) m i =
    mark_unpublish-Inv hs _
      (ground (arith, delete-insert-overlap h m.ready_to_publish m.ready_to_unpublish))

pub publish_resources-Inv : (hs : List String) (m : Manager) → Inv m → Inv (publish_resources hs m)
unfolding publish_resources
publish_resources-Inv hs m i = trigger_runner-Inv false _ (mark_publish-Inv hs m i)

pub unpublish_resources-Inv :
    (hs : List String) (m : Manager) → Inv m → Inv (unpublish_resources hs m)
unfolding unpublish_resources
unpublish_resources-Inv hs m i = trigger_runner-Inv false _ (mark_unpublish-Inv hs m i)
