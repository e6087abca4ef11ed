-- ===== src/Client/Own/Transfer.antt =====
-- client/core/ownDevice.go: the steps of Own, in its order.
use device.Common.{
  ℕ, String, ◌==◌, Bool, true, not, ◌&&◌, Option, none, some, List, [], ◌∷◌, eqb, is_empty, is_some,
  any, if◌then◌else◌,
}
use device.Schema.Link.{ResourceLink, Endpoint, has_flag}
use device.Schema.Endpoints.{AddrOps, get_addr, udp_scheme, udp_secure_scheme, tcp_secure_scheme}
use device.Client.Own.Requests.{
  plain_conn, owner_conn, psk_conn, select_otm, set_device_id, get_pstat, get_doxm,
  set_operational_mode, set_operational_state, set_owner_id, set_pstat_owner, set_acl_owner,
  set_owned, reset, rfpro, rfnop, is_rfotm, client_directed, internal, unavailable,
  permission_denied, invalid_argument, aborted, action_failed,
}
use device.Client.Own.Monad
use device.Client.Own.Monad.{
  Peer, State, Result, ok, err, M, ◌>>=◌, ◌>>◌, pure, throw, require, from_option, read_device_id,
  dial, closing, send, update,
}
use device.Client.Own.Credentials.{Certificates, provision_owner_credentials, set_owner_acl}

-- doxm.Doxm as GetOwnership returns it.
pub record Ownership : Type 0 where
  pub owned : Bool
  pub owner_id : String
  pub methods : List ℕ

-- ownCfg. `during` and `after` are functions of the user that send no request of the program's own:
-- what they return. Without `during` the device ID is set.
pub record OwnCfg : Type 0 where
  pub psk : List ℕ
  pub sign : Option Certificates
  pub during : Option (Option String)
  pub after : Option Bool

-- What Own meets outside: the results of GetOwnership and GetSdkOwnerID, of the dials, of uuid.Parse
-- and of rand.Read.
pub record Env (Addr : Type 0) : Type 0 where
  pub ownership : Option Ownership
  pub sdk_id : Option String
  pub dial_udp : Bool
  pub dial_owner : ℕ → Addr → Bool
  pub dial_psk : List ℕ → Addr → Bool
  pub uuid_parses : Bool
  pub random : Option (List ℕ)

-- findOTMClient; a client is its Type.
unfoldable pub find_otm_client : List ℕ → List ℕ → Option ℕ
find_otm_client [] methods = none
find_otm_client (c ∷ cs) methods =
    if any (λ s. eqb s c) methods then some c else find_otm_client cs methods

-- setDoxmDeviceID, or the user's function.
abbrev pub action_during_own : Peer → Option (Option String) → M String
action_during_own peer none = do
  id ← read_device_id
  update peer owner_conn (set_device_id id) internal
  pure id
action_during_own peer (some id) = from_option id action_failed

-- checkProvisionState
unfoldable pub check_provision_state : Peer → M (Unit {0})
check_provision_state peer = do
  r ← send peer owner_conn get_pstat
  require r.accepted internal
  require (not r.pending) internal
  require (is_rfotm r.state) internal
  require (has_flag r.modes client_directed) unavailable

-- provisionOwner
unfoldable pub provision_owner : Peer → OwnCfg → Option (List ℕ) → String → String → M (List ℕ)
provision_owner peer cfg random device_id sdk_id = do
  require (not (is_empty cfg.psk && not (is_some cfg.sign))) invalid_argument
  psk ← from_option (if is_empty cfg.psk then random else some cfg.psk) aborted
  provision_owner_credentials peer cfg.sign sdk_id device_id psk
  pure psk

-- setResourceOwner
unfoldable pub set_resource_owner : Peer → String → M (Unit {0})
set_resource_owner peer owner = do
  update peer owner_conn (set_pstat_owner owner) internal
  update peer owner_conn (set_acl_owner owner) internal
  update peer owner_conn (set_owned owner) internal

-- The part of ownershipTransfer after the credentials: the owner is set and read back.
unfoldable pub set_and_verify_owner : Peer → String → M (Unit {0})
set_and_verify_owner peer sdk_id = do
  update peer owner_conn (set_owner_id sdk_id) unavailable
  r ← send peer owner_conn get_doxm
  require r.accepted unavailable
  require (r.owner_id == sdk_id) internal
  set_resource_owner peer sdk_id

-- ownershipTransfer
unfoldable pub ownership_transfer : Peer → OwnCfg → Option (List ℕ) → String → M (List ℕ)
ownership_transfer peer cfg random sdk_id = do
  check_provision_state peer
  update peer owner_conn (set_operational_mode client_directed) internal
  id ← action_during_own peer cfg.during
  Monad.set_device_id id
  psk ← provision_owner peer cfg random id sdk_id
  set_and_verify_owner peer sdk_id
  pure psk

abbrev pub action_after_own : Option Bool → M (Unit {0})
action_after_own none = pure tt
action_after_own (some good) = require good internal

-- The part of configure over the connection with the preshared key.
unfoldable pub configure_owned : Peer → List ResourceLink → String → Option Bool → M (Unit {0})
configure_owned peer links owner after = do
  set_owner_acl peer links owner
  update peer psk_conn (set_operational_state rfnop) internal
  action_after_own after

-- configure, with getDTLSClient.
unfoldable pub configure :
    Peer → List ResourceLink → String → Option Bool → Bool → Bool → M (Unit {0})
configure peer links owner after uuid_parses dial_psk = do
  update peer owner_conn (set_operational_state rfpro) internal
  require uuid_parses internal
  dial dial_psk unavailable
  closing (configure_owned peer links owner after)

-- disownAndLogError
unfoldable pub disown : Peer → State → State
disown peer s = (update peer owner_conn (set_operational_state reset) internal s).1

-- A failed step of Own after the dial disowns the device.
abbrev pub disown_on_error : {A : Type 0} → Peer → Result A × State → Result A × State
disown_on_error peer (ok a, s) = (ok a, s)
disown_on_error peer (err e, s) = (err e, disown peer s)

unfoldable pub or_disown : {A : Type 0} → Peer → M A → M A
or_disown peer c s = disown_on_error peer (c s)

module _ {Addr : Type 0} (ops : AddrOps Addr) where
  -- selectOTM; every error of it is reported as internal.
  unfoldable pub select_owner_transfer_method : Peer → List Endpoint → Bool → ℕ → M (Unit {0})
  select_owner_transfer_method peer endpoints dial_udp method = do
    from_option (get_addr ops endpoints udp_scheme) internal
    dial dial_udp internal
    closing (update peer plain_conn (select_otm method) internal)

  abbrev dialled : (Addr → Bool) → Option Addr → Option Addr → Option Addr
  dialled dial none next = next
  dialled dial (some addr) next = if dial addr then some addr else next

  -- getTLSClient
  unfoldable pub get_tls_client : (Addr → Bool) → List ResourceLink → Option Addr
  get_tls_client dial [] = none
  get_tls_client dial (link ∷ links) =
      let rest = get_tls_client dial links in
      dialled dial (get_addr ops link.endpoints udp_secure_scheme)
        (dialled dial (get_addr ops link.endpoints tcp_secure_scheme) rest)

  -- Own from the TLS connection on.
  unfoldable pub transfer_and_configure :
      Peer → OwnCfg → Env Addr → List ResourceLink → String → Addr → M (Unit {0})
  transfer_and_configure peer cfg env links sdk_id addr = do
    psk ← or_disown peer (ownership_transfer peer cfg env.random sdk_id)
    or_disown peer (configure peer links sdk_id cfg.after env.uuid_parses (env.dial_psk psk addr))

  unfoldable pub own_unowned :
      Peer
      → OwnCfg
      → Env Addr
      → List Endpoint
      → List ResourceLink
      → List ℕ
      → List ℕ
      → String
      → M (Unit {0})
  own_unowned peer cfg env endpoints links clients methods sdk_id = do
    client ← from_option (find_otm_client clients methods) unavailable
    select_owner_transfer_method peer endpoints env.dial_udp client
    addr ← from_option (get_tls_client (env.dial_owner client) links) internal
    dial true internal
    closing (transfer_and_configure peer cfg env links sdk_id addr)

  -- Own
  unfoldable pub own :
      Peer → OwnCfg → Env Addr → List Endpoint → List ResourceLink → List ℕ → M (Unit {0})
  own peer cfg env endpoints links clients = do
    ownership ← from_option env.ownership unavailable
    sdk_id ← from_option env.sdk_id unavailable
    if ownership.owned
        then require (ownership.owner_id == sdk_id) permission_denied
        else own_unowned peer cfg env endpoints links clients ownership.methods sdk_id
