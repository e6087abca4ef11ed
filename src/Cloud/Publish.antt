-- ===== src/Cloud/Publish.antt =====
-- bridge/device/cloud/publishResources.go and patchDeviceLink of manager.go: what is published to
-- and unpublished from the resource directory of the cloud.
use device.Common.{
  ℕ, zero, suc, String, true, not, ◌&&◌, List, [], ◌∷◌, map, if◌then◌else◌, is_empty, keep, length,
}
use device.Common.Keys.{has}
use device.Schema.Link.{ResourceLink, has_type}
use device.Cloud.State.{
  Manager, sent_publish, sent_unpublish, pop_ready_to_publish, pop_ready_to_unpublish,
}
use device.Cloud.Monad.{
  publishing, unpublishing, not_built, at, out_of_fuel, M, ◌>>=◌, ◌>>◌, done, fail, modify, require,
}
use device.Cloud.Session.{Exchange, need_client, do_request, expect_code, is_changed, is_deleted}

-- device.ResourceType and device.ResourceURI
abbrev pub device_type : String
device_type = "oic.wk.d"

abbrev pub device_uri : String
device_uri = "/oic/d"

unfoldable pub patch_device_link : List ResourceLink → List ResourceLink
patch_device_link [] = []
patch_device_link (l ∷ ls) =
    let rest = patch_device_link ls in
    if has_type l device_type then record l { href = device_uri } ∷ ls else l ∷ rest

-- getLinksToPublish; `links` is what the callback getLinks returns for the PublishToCloud mask.
unfoldable pub links_to_publish : List ResourceLink → List String → Manager → List ResourceLink
links_to_publish links ready m =
    if m.resources_published && is_empty ready
    then []
    else if not m.resources_published
    then patch_device_link links
    else keep (λ l. has l.href ready) (patch_device_link links)

abbrev pub hrefs : List ResourceLink → List String
hrefs = map λ l. l.href

unfoldable pub publish_links : Exchange (Unit {0}) → List ResourceLink → M (Unit {0})
publish_links x links = do
  n ← need_client publishing
  require x.built (at publishing not_built)
  r ← do_request publishing (sent_publish (hrefs links)) x n
  expect_code is_changed publishing r.0
  modify (λ m. record m { resources_published = true })

-- publishResources
unfoldable pub publish_step : List ResourceLink → Exchange (Unit {0}) → M (Unit {0})
publish_step links x m =
    let (ready, m') = pop_ready_to_publish m in
    let chosen = links_to_publish links ready m' in
    if is_empty chosen then done m' else publish_links x chosen m'

-- The number of hrefs that one request unpublishes.
abbrev pub batch : ℕ
batch = 10

unfoldable pub unpublish_round : Exchange (Unit {0}) → List String → M (Unit {0})
unpublish_round x ready = do
  n ← need_client unpublishing
  require x.built (at unpublishing not_built)
  r ← do_request unpublishing (sent_unpublish ready) x n
  expect_code is_deleted unpublishing r.0

-- The loop of unpublishResources; round `k` of the loop meets the exchange `xs k`.
unfoldable pub unpublish_loop : ℕ → (ℕ → Exchange (Unit {0})) → ℕ → M (Unit {0})
unpublish_loop zero xs k = fail out_of_fuel
unpublish_loop (suc fuel) xs k = λ m.
    let (ready, m') = pop_ready_to_unpublish batch m in
    let again = unpublish_round (xs k) ready >> unpublish_loop fuel xs (suc k) in
    if is_empty ready then done m' else again m'

-- unpublishResources: as many rounds as there are hrefs are enough.
unfoldable pub unpublish_step : (ℕ → Exchange (Unit {0})) → M (Unit {0})
unpublish_step xs m = unpublish_loop (suc (length m.ready_to_unpublish)) xs 0 m
