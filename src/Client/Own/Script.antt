-- ===== src/Client/Own/Script.antt =====
-- Own of client/core/ownDevice.go sends the requests of a fixed script, and disowns the device when
-- it cannot finish it.
use device.Common.{ℕ, String, ◌==◌, ◌≡◌, true, some, List, [], ◌∷◌, arith, ◌⊎◌, if◌then◌else◌}
use device.Schema.Link.{ResourceLink, Endpoint}
use device.Schema.Endpoints.{AddrOps}
use device.Client.Own.Requests.{plain_conn, permission_denied}
use device.Client.Own.Monad.{Peer, State, ok, err, ◌>>=◌, require, from_option}
use device.Client.Own.Credentials.{}
use device.Client.Own.Transfer.{Ownership, OwnCfg, Env, own}
use device.Client.Own.Trace.{selects_otm, Script, IsPrefix, Trace}
use device.Client.Own.Trace.Rules.{Disowned}

module _ {Addr : Type 0} (ops : AddrOps Addr) where
  -- What a failed Own has sent: nothing past the choice of the method, or a beginning of the rest, and
  -- then the request that disowns the device.
  abbrev pub Undone : ℕ → Script → Script → Type 0
  Undone client rest l =
      IsPrefix l ((plain_conn, selects_otm client) ∷ [])
      ⊎ ((k : Script) × Disowned rest k × (l ≡ (plain_conn, selects_otm client) ∷ k))

  -- Own of a device that has an owner sends nothing: it succeeds if the owner is this client, and else
  -- it is refused permission.
  own-owned :
      (peer : Peer) (cfg : OwnCfg) (env : Env Addr) (endpoints : List Endpoint)
      (links : List ResourceLink) (clients : List ℕ) (o : Ownership) (sdk_id : String) (s : State)
      → env.ownership ≡ some o
      → o.owned ≡ true
      → env.sdk_id ≡ some sdk_id
      → own ops peer cfg env endpoints links clients s
        ≡ ((if o.owner_id == sdk_id then ok tt else err permission_denied), s)
  unfolding own ◌>>=◌ from_option require
  own-owned peer cfg env endpoints links clients o sdk_id s e n i = simp (e, i, n) (ground arith)
