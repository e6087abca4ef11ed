-- ===== src/Cloud/Ready.antt =====
-- The two sets of hrefs that wait to be published and unpublished: what PublishResources and
-- UnpublishResources of bridge/device/cloud/manager.go make of them.
use device.Common.{String, ◌≡◌, refl, not, ◌&&◌, ◌||◌, List, [], ◌∷◌, arith}
use device.Common.Keys.{has, insert, delete, has-insert, has-delete}
use device.Cloud.State.{
  Manager, trigger_runner, mark_publish, mark_unpublish, publish_resources, unpublish_resources,
}

mark_publish-has :
    (hs : List String) (m : Manager) (j : String)
    → (has j (mark_publish hs m).ready_to_publish ≡ (has j hs || has j m.ready_to_publish))
      × (has j (mark_publish hs m).ready_to_unpublish
          ≡ (not (has j hs) && has j m.ready_to_unpublish))
unfolding mark_publish
mark_publish-has [] m j = (refl, refl)
mark_publish-has (h ∷ hs) m j = ground (
  arith,
  mark_publish-has hs
      (record m {
        ready_to_publish = insert h m.ready_to_publish;
        ready_to_unpublish = delete h m.ready_to_unpublish;
      })
      j,
  has-insert j h m.ready_to_publish,
  has-delete j h m.ready_to_unpublish,
)

mark_unpublish-has :
    (hs : List String) (m : Manager) (j : String)
    → (has j (mark_unpublish hs m).ready_to_unpublish ≡ (has j hs || has j m.ready_to_unpublish))
      × (has j (mark_unpublish hs m).ready_to_publish
          ≡ (not (has j hs) && has j m.ready_to_publish))
unfolding mark_unpublish
mark_unpublish-has [] m j = (refl, refl)
mark_unpublish-has (h ∷ hs) m j = ground (
  arith,
  mark_unpublish-has hs
      (record m {
        ready_to_unpublish = insert h m.ready_to_unpublish;
        ready_to_publish = delete h m.ready_to_publish;
      })
      j,
  has-insert j h m.ready_to_unpublish,
  has-delete j h m.ready_to_publish,
)

-- After PublishResources exactly the given hrefs have joined those to be published, and none of
-- them is left among those to be unpublished, which otherwise keep their members.
pub publish_resources-has :
    (hs : List String) (m : Manager) (j : String)
    → (has j (publish_resources hs m).ready_to_publish ≡ (has j hs || has j m.ready_to_publish))
      × (has j (publish_resources hs m).ready_to_unpublish
          ≡ (not (has j hs) && has j m.ready_to_unpublish))
unfolding publish_resources trigger_runner
publish_resources-has hs m j = ground (arith, mark_publish-has hs m j)

-- After UnpublishResources exactly the given hrefs have joined those to be unpublished, and none of
-- them is left among those to be published, which otherwise keep their members.
pub unpublish_resources-has :
    (hs : List String) (m : Manager) (j : String)
    → (has j (unpublish_resources hs m).ready_to_unpublish
        ≡ (has j hs || has j m.ready_to_unpublish))
      × (has j (unpublish_resources hs m).ready_to_publish
          ≡ (not (has j hs) && has j m.ready_to_publish))
unfolding unpublish_resources trigger_runner
unpublish_resources-has hs m j = ground (arith, mark_unpublish-has hs m j)
