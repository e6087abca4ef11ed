-- ===== src/Client/Own/Requests.antt =====
-- The requests that own and disown a device send, from schema/pstat, schema/doxm, schema/acl and
-- schema/credential: of each body the fields that the code sets.
use device.Common.{ℕ, String, Bool, true, false, List}

pub data OperationalState : Type 0 where
  reset rfotm rfpro rfnop sreset : OperationalState

abbrev pub is_rfotm : OperationalState → Bool
is_rfotm OperationalState.rfotm = true
is_rfotm _ = false

-- OperationalMode_CLIENT_DIRECTED
abbrev pub client_directed : ℕ
client_directed = 4

-- acl.Resource; `href` or `wildcard` is the empty text where it is absent. Interfaces are "*".
pub record AclResource : Type 0 where
  pub href : String
  pub wildcard : String

pub data Subject : Type 0 where
  subject_device : String → Subject
  anon_clear : Subject

pub record AccessControl : Type 0 where
  pub permission : ℕ
  pub subject : Subject
  pub resources : List AclResource

pub data OwnerCredential : Type 0 where
  pairwise : String → List ℕ → OwnerCredential
  identity : String → String → OwnerCredential
  trust_ca : String → String → OwnerCredential

-- A request by what it does; an update of doxm or pstat by the fields that it sets.
pub data Request : Type 0 where
  select_otm : ℕ → Request
  set_device_id : String → Request
  get_pstat get_doxm get_csr : Request
  set_operational_mode : ℕ → Request
  set_operational_state : OperationalState → Request
  set_credentials : String → List OwnerCredential → Request
  set_owner_id set_pstat_owner set_acl_owner set_owned : String → Request
  delete_acl : String → Request
  set_acl : String → List AccessControl → Request

-- The connections: CoAP over UDP, the one of the transfer method, and DTLS with the preshared key.
pub data Conn : Type 0 where
  plain_conn owner_conn psk_conn : Conn

-- What a device answers: whether the request succeeded, and what the bodies of the answers to
-- get_pstat, get_doxm and get_csr hold.
pub record Reply : Type 0 where
  pub accepted : Bool
  pub pending : Bool
  pub state : OperationalState
  pub modes : ℕ
  pub owner_id : String
  pub csr_is_der : Bool
  pub csr : String

-- The kinds of MakeInternal, MakeUnavailable and the like, which leave an error its own kind where it
-- has one: those of the user's functions, of go-coap and of GetOwnership are taken to have none; `action_failed` is what a function of the
-- user returned, `panicked` an index out of range.
pub data Error : Type 0 where
  internal unavailable permission_denied invalid_argument aborted : Error
  action_failed panicked : Error
