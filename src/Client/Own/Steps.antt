-- ===== src/Client/Own/Steps.antt =====
-- The requests that the steps of Own of client/core/ownDevice.go send.
use device.Common.{ℕ, String, refl, Bool, Option, none, some, List, [], ◌∷◌, ◌++◌, map, append-nil}
use device.Schema.Link.{ResourceLink}
use device.Client.Own.Requests.{
  owner_conn, psk_conn, client_directed, rfpro, rfnop, internal, unavailable, OwnerCredential,
  identity, trust_ca,
}
use device.Client.Own.Monad.{Peer, M, ◌>>=◌}
use device.Client.Own.Credentials.{
  Certificates, certificate_credentials, setup_certificates, provision_owner_credentials,
  set_owner_acl, owner_acl,
}
use device.Client.Own.Transfer.{
  OwnCfg, action_during_own, check_provision_state, provision_owner, set_resource_owner,
  set_and_verify_owner, ownership_transfer, action_after_own, configure_owned, configure,
}
use device.Client.Own.Trace.{
  sets_device_id, reads_pstat, reads_doxm, reads_csr, sets_mode, enters, sets_credentials,
  sets_owner_id, sets_pstat_owner, sets_acl_owner, sets_owned, deletes_acl, sets_acl, Script, Trace,
  bind_rule, then_rule, pure_rule, assoc_rule, then_assoc_rule, pure_then_rule, CredentialKind,
  credential_kind, pairwise_for, identity_certificate, trust_ca_for,
}
use device.Client.Own.Trace.Rules.{
  require_rule, option_rule, read_rule, set_rule, send_rule, update_rule, Trace-cast, dial_rule,
}

abbrev pub csr_script : Option Certificates → Script
csr_script none = []
csr_script (some x) = (owner_conn, reads_csr) ∷ []

-- The credentials of ProvisionOwnerCredentials, all of the owner but the certificate of the device.
abbrev pub certificate_kinds : Option Certificates → String → List CredentialKind
certificate_kinds none owner = []
certificate_kinds (some x) owner = identity_certificate ∷ trust_ca_for owner ∷ []

abbrev pub credential_script : Option Certificates → String → Script
credential_script x owner =
    csr_script x
    ++ (owner_conn, sets_credentials owner (pairwise_for owner ∷ certificate_kinds x owner)) ∷ []

abbrev pub during_script : Option (Option String) → Script
during_script none = (owner_conn, sets_device_id) ∷ []
during_script (some f) = []

abbrev pub verify_script : String → Script
verify_script sdk_id =
    (owner_conn, sets_owner_id sdk_id)
    ∷ (owner_conn, reads_doxm)
    ∷ (owner_conn, sets_pstat_owner sdk_id)
    ∷ (owner_conn, sets_acl_owner sdk_id)
    ∷ (owner_conn, sets_owned sdk_id)
    ∷ []

-- The requests of ownershipTransfer.
abbrev pub transfer_script : OwnCfg → String → Script
transfer_script cfg sdk_id =
    (owner_conn, reads_pstat)
    ∷ (owner_conn, sets_mode client_directed)
    ∷ (during_script cfg.during ++ (credential_script cfg.sign sdk_id ++ verify_script sdk_id))

-- The requests of configure.
abbrev pub configure_script : List ResourceLink → String → Script
configure_script links sdk_id =
    (owner_conn, enters rfpro)
    ∷ (psk_conn, deletes_acl)
    ∷ (psk_conn, sets_acl (owner_acl sdk_id links))
    ∷ (psk_conn, enters rfnop)
    ∷ []

-- What follows the set-up of certificates is given an identity of the device and the owner's root.
certificate_credentials-then :
    {A : Type 0} (peer : Peer) (x : Certificates) (owner device_id : String)
    (g : List OwnerCredential → M A) (ls : Script)
    → ((chain root : String) → Trace (g (identity device_id chain ∷ trust_ca owner root ∷ [])) ls)
    → Trace (certificate_credentials peer x owner device_id >>= g) ((owner_conn, reads_csr) ∷ ls)
unfolding certificate_credentials
certificate_credentials-then peer x owner device_id g ls h = assoc_rule _ _ _ _ (
    bind_rule ((owner_conn, reads_csr) ∷ []) ls (send_rule peer owner_conn _) λ r.
      then_assoc_rule _ _ _ _ (
        then_rule [] ls (require_rule _ _) (
          assoc_rule _ _ _ _ (
            bind_rule [] ls (option_rule _ _) λ chain. assoc_rule _ _ _ _ (
              bind_rule [] ls (option_rule _ _) λ certs.
                assoc_rule _ _ _ _
                  (bind_rule [] ls (option_rule _ _) λ root. pure_then_rule _ g ls (h chain _)))))))

setup_certificates-then :
    {A : Type 0} (peer : Peer) (x : Option Certificates) (owner device_id : String)
    (g : List OwnerCredential → M A) (k : List CredentialKind → Script)
    → ((extra : List OwnerCredential) → Trace (g extra) (k (map credential_kind extra)))
    → Trace
        (setup_certificates peer x owner device_id >>= g)
        (csr_script x ++ k (certificate_kinds x owner))
setup_certificates-then peer none owner device_id g k h = pure_then_rule _ g _ (h [])
setup_certificates-then peer (some x) owner device_id g k h =
    certificate_credentials-then peer x owner device_id g (k (certificate_kinds (some x) owner))
      λ chain root. h (identity device_id chain ∷ trust_ca owner root ∷ [])

provision_owner_credentials-Trace :
    (peer : Peer) (x : Option Certificates) (owner device_id : String) (psk : List ℕ)
    → Trace (provision_owner_credentials peer x owner device_id psk) (credential_script x owner)
unfolding provision_owner_credentials
provision_owner_credentials-Trace peer x owner device_id psk = then_rule [] _ (require_rule _ _) (
    setup_certificates-then peer x owner device_id _
      (λ cs. (owner_conn, sets_credentials owner (pairwise_for owner ∷ cs)) ∷ [])
      λ extra. update_rule peer owner_conn _ _)

provision_owner-Trace :
    (peer : Peer) (cfg : OwnCfg) (random : Option (List ℕ)) (id sdk_id : String)
    → Trace (provision_owner peer cfg random id sdk_id) (credential_script cfg.sign sdk_id)
unfolding provision_owner
provision_owner-Trace peer cfg random id sdk_id = then_rule [] _ (require_rule _ _) (
    bind_rule [] _ (option_rule _ _) λ psk. Trace-cast (append-nil _) (
      then_rule _ [] (provision_owner_credentials-Trace peer cfg.sign sdk_id id psk)
        (pure_rule psk)))

set_and_verify_owner-Trace :
    (peer : Peer) (sdk_id : String)
    → Trace (set_and_verify_owner peer sdk_id) (verify_script sdk_id)
unfolding set_and_verify_owner set_resource_owner
set_and_verify_owner-Trace peer sdk_id =
    then_rule ((owner_conn, sets_owner_id sdk_id) ∷ []) _ (update_rule peer owner_conn _ _) (
      bind_rule ((owner_conn, reads_doxm) ∷ []) _ (send_rule peer owner_conn _) λ r.
        then_rule [] _ (require_rule _ _) (
          then_rule [] _ (require_rule _ _) (
            then_rule ((owner_conn, sets_pstat_owner sdk_id) ∷ []) _
              (update_rule peer owner_conn _ _)
              (then_rule ((owner_conn, sets_acl_owner sdk_id) ∷ []) _
                (update_rule peer owner_conn _ _) (update_rule peer owner_conn _ _)))))

check_provision_state-Trace :
    (peer : Peer) → Trace (check_provision_state peer) ((owner_conn, reads_pstat) ∷ [])
unfolding check_provision_state
check_provision_state-Trace peer =
    bind_rule ((owner_conn, reads_pstat) ∷ []) [] (send_rule peer owner_conn _) λ r.
      then_rule [] [] (require_rule _ _)
        (then_rule [] [] (require_rule _ _) (then_rule [] [] (require_rule _ _) (require_rule _ _)))

action_during_own-Trace :
    (peer : Peer) (f : Option (Option String)) → Trace (action_during_own peer f) (during_script f)
action_during_own-Trace peer none = bind_rule [] _ read_rule λ id.
    then_rule ((owner_conn, sets_device_id) ∷ []) [] (update_rule peer owner_conn _ _)
      (pure_rule id)
action_during_own-Trace peer (some id) = option_rule id _

pub ownership_transfer-Trace :
    (peer : Peer) (cfg : OwnCfg) (random : Option (List ℕ)) (sdk_id : String)
    → Trace (ownership_transfer peer cfg random sdk_id) (transfer_script cfg sdk_id)
unfolding ownership_transfer
ownership_transfer-Trace peer cfg random sdk_id =
    then_rule ((owner_conn, reads_pstat) ∷ []) _ (check_provision_state-Trace peer) (
      then_rule ((owner_conn, sets_mode client_directed) ∷ []) _ (update_rule peer owner_conn _ _) (
        bind_rule (during_script cfg.during) _ (action_during_own-Trace peer cfg.during) λ id.
          then_rule [] _ (set_rule id) (
            bind_rule _ _ (provision_owner-Trace peer cfg random id sdk_id) λ psk.
              then_rule (verify_script sdk_id) [] (set_and_verify_owner-Trace peer sdk_id)
                (pure_rule psk))))

action_after_own-Trace : (after : Option Bool) → Trace (action_after_own after) []
action_after_own-Trace none = pure_rule tt
action_after_own-Trace (some good) = require_rule good internal

set_owner_acl-Trace :
    (peer : Peer) (links : List ResourceLink) (owner : String)
    → Trace
        (set_owner_acl peer links owner)
        ((psk_conn, deletes_acl) ∷ (psk_conn, sets_acl (owner_acl owner links)) ∷ [])
unfolding set_owner_acl
set_owner_acl-Trace peer links owner = bind_rule [] _ (option_rule _ _) λ link.
    then_rule ((psk_conn, deletes_acl) ∷ []) _ (update_rule peer psk_conn _ _)
      (update_rule peer psk_conn _ _)

pub configure-Trace :
    (peer : Peer) (links : List ResourceLink) (owner : String) (after : Option Bool)
    (uuid_parses dial_psk : Bool)
    → Trace (configure peer links owner after uuid_parses dial_psk) (configure_script links owner)
unfolding configure configure_owned
configure-Trace peer links owner after uuid_parses dial_psk =
    then_rule ((owner_conn, enters rfpro) ∷ []) _ (update_rule peer owner_conn _ _) (
      then_rule [] _ (require_rule _ _) (
        dial_rule dial_psk unavailable _ _ (_, refl)
          (then_rule _ _ (set_owner_acl-Trace peer links owner) (
            then_rule ((psk_conn, enters rfnop) ∷ []) [] (update_rule peer psk_conn _ _)
              (action_after_own-Trace after)))))
