-- ===== src/Cloud/Renewal.antt =====
-- When the manager of bridge/device/cloud renews its token, and what it forgets.
use device.Common.{
  ℕ, ◌+◌, ◌*◌, ◌<◌, ◌≡◌, ◌≢◌, true, false, not, ◌&&◌, none, List, is_some, arith, eqb, ltb,
}
use device.Schema.Link.{ResourceLink}
use device.Cloud.State.{
  Manager, is_creds_expiring, close_client, replace_client, pop_ready_to_publish, on_close,
}
use device.Cloud.Monad.{Error, ok, err, monad}
use device.Cloud.Session.{Exchange, need_client, do_request}
use device.Cloud.Publish.{links_to_publish, publish_links, publish_step}
use device.Cloud.Connect.{Env, dial_new, dial, wants_refresh, connect}

-- While the clock stands still, credentials that expire at all are found to be expiring exactly when
-- they expire within two tick intervals: the later test, for the last third of their life, finds
-- nothing more.
pub is_creds_expiring_window :
    (now : ℕ) (m : Manager)
    → 0 < m.tick_interval
    → is_creds_expiring now now m
      ≡ (not (eqb m.creds.valid_until 0) && ltb m.creds.valid_until (now + m.tick_interval * 2))
unfolding is_creds_expiring
is_creds_expiring_window now m h = ground arith

-- A connect that has no living connection and gets none from tcp.Dial fails, keeps the credentials and
-- drops the request to refresh them, which a rejected sign-in may have made: the connect after it wants
-- to refresh them exactly if they are found to be expiring then.
pub connect-drops_refresh :
    (env env' : Env) (m : Manager)
    → (is_some m.client && env.alive) ≡ false
    → env.dialed ≡ none
    → ((connect env m).0 ≢ ok tt)
      × ((connect env m).1.creds ≡ m.creds)
      × (wants_refresh env' (connect env m).1 ≡ is_creds_expiring env'.now env'.later m)
unfolding connect dial dial_new is_creds_expiring replace_client close_client monad
connect-drops_refresh env env' m a d = ground (arith, a, d)

-- Once the resources are published, hrefs that were marked for publishing are lost when the request
-- for them fails: publishing again at once succeeds and sends nothing.
pub publish_step-loses :
    (links links' : List ResourceLink) (x x' : Exchange (Unit {0})) (e : Error) (m : Manager)
    → m.resources_published ≡ true
    → (publish_step links x m).0 ≡ err e
    → publish_step links' x' (publish_step links x m).1 ≡ (ok tt, (publish_step links x m).1)
unfolding publish_step links_to_publish publish_links need_client do_request pop_ready_to_publish
    on_close monad
publish_step-loses links links' x x' e m p h = ground arith
