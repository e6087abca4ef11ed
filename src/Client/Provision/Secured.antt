-- ===== src/Client/Provision/Secured.antt =====
-- What client/core/provisionDevice.go and disownDevice.go send, and where to.
use device.Common.{
  ◌==◌, ◌≡◌, refl, sym, ap, ◌∙◌, Bool, true, false, ◌||◌, Option, none, some, List, [], ◌∷◌, ◌++◌,
  All, append_assoc, append-nil, Bool-cases, inl, inr,
}
use device.Schema.Link.{ResourceLink, Endpoint, get_resource_link}
use device.Schema.Endpoints.{
  AddrOps, is_secured_scheme, passes, get_endpoints_with_filter, filter_secure_endpoints,
}
use device.Client.Own.Requests.{OperationalState, rfpro, rfnop, trust_ca}
use device.Cloud.State.{ConfigurationUpdateRequest}
use device.Client.Provision.{
  Body, onboarding_state, credentials, cloud_configuration, access_control, Update, Device,
  cloud_link, Call, add_credentials, add_certificate_authority, set_cloud_resource,
  set_access_control, update_link, update_resource, start, finish, update_cloud, call, calls,
  provisioned, session,
}

module _ {Addr : Type 0} (ops : AddrOps Addr) where
  -- All endpoints have a secured scheme.
  abbrev pub AllSecured : List Endpoint → Type 0
  AllSecured eps = All (λ ep. passes ops is_secured_scheme (ops.parse ep.uri) ≡ true) eps

  filter_secure_endpoints-AllSecured :
      (eps : List Endpoint) → AllSecured (filter_secure_endpoints ops eps)
  unfolding filter_secure_endpoints get_endpoints_with_filter
  filter_secure_endpoints-AllSecured [] = tt
  filter_secure_endpoints-AllSecured (ep ∷ eps) =
      elim (Bool-cases (passes ops is_secured_scheme (ops.parse ep.uri))) [
        | inl t ↦ rw t (t, filter_secure_endpoints-AllSecured eps)
        | inr f ↦ rw f (filter_secure_endpoints-AllSecured eps)
      ]

  -- Whether an update sets the state of the device.
  abbrev pub sets_state : Body → Bool
  sets_state (onboarding_state s) = true
  sets_state _ = false

  -- An update over secured endpoints, of something else than the state.
  abbrev pub IsProvisioning : Update → Type 0
  IsProvisioning u = AllSecured u.endpoints × (sets_state u.body ≡ false)

  module _ (device : Device) (links : List ResourceLink) where
    -- What was sent before, and more provisioning.
    record Adds (sent sent' : List Update) : Type 0 where
      more : List Update
      added : sent' ≡ sent ++ more
      provisioning : All IsProvisioning more

    nothing : (sent : List Update) → Adds sent sent
    nothing sent = record { more = []; added = sym (append-nil sent); provisioning = tt }

    update_link-Adds :
        (l : Option ResourceLink) (body : Body) (sent : List Update)
        → sets_state body ≡ false
        → Adds sent (update_link ops device links l body sent).1
    update_link-Adds none body sent h = nothing sent
    update_link-Adds (some l) body sent h = record {
      more =
          record { href = l.href; endpoints = filter_secure_endpoints ops l.endpoints; body = body }
          ∷ [];
      added = refl;
      provisioning = ((filter_secure_endpoints-AllSecured l.endpoints, h), tt);
    }

    update_cloud-Adds :
        (l : Option ResourceLink) (sent : List Update) (r : ConfigurationUpdateRequest)
        → Adds sent (update_cloud ops device links l r sent).1
    update_cloud-Adds none sent r = nothing sent
    update_cloud-Adds (some l) sent r = elim (Bool-cases (l.href == "")) [
      | inl t ↦ rw t (nothing sent)
      | inr f ↦ rw f (update_link-Adds (some l) (cloud_configuration r) sent refl)
    ]

    call-Adds : (c : Call) (sent : List Update) → Adds sent (call ops device links c sent).1
    unfolding call update_resource
    call-Adds (add_credentials cs) sent =
        update_link-Adds (get_resource_link links "/oic/sec/cred") (credentials cs) sent refl
    call-Adds (add_certificate_authority subject pem) sent =
        update_link-Adds (get_resource_link links "/oic/sec/cred")
          (credentials (trust_ca subject pem ∷ [])) sent refl
    call-Adds (set_access_control a) sent =
        update_link-Adds (get_resource_link links "/oic/sec/acl2") (access_control a) sent refl
    call-Adds (set_cloud_resource r) sent =
        elim (Bool-cases
          ((r.authorization_provider == "") || (r.authorization_code == "") || (r.url == ""))) [
            | inl t ↦ rw t (nothing sent)
            | inr f ↦ rw f (update_cloud-Adds (cloud_link links) sent r)
          ]

    All-append :
        (xs ys : List Update)
        → All IsProvisioning xs
        → All IsProvisioning ys
        → All IsProvisioning (xs ++ ys)
    All-append [] ys a b = b
    All-append (x ∷ xs) ys a b = (a.0, All-append xs ys a.1 b)

    Adds-trans : (r s t : List Update) → Adds r s → Adds s t → Adds r t
    Adds-trans r s t a b = record {
      more = a.more ++ b.more;
      added = b.added ∙ (ap (λ x. x ++ b.more) a.added ∙ append_assoc r a.more b.more);
      provisioning = All-append a.more b.more a.provisioning b.provisioning;
    }

    calls-Adds : (cs : List Call) (sent : List Update) → Adds sent (calls ops device links cs sent)
    unfolding calls
    calls-Adds [] sent = nothing sent
    calls-Adds (c ∷ cs) sent =
        Adds-trans sent (call ops device links c sent).1
          (calls ops device links cs (call ops device links c sent).1) (call-Adds c sent)
          (calls-Adds cs (call ops device links c sent).1)

    abbrev pub state_update : ResourceLink → OperationalState → Update
    state_update l s = record {
      href = l.href;
      endpoints = filter_secure_endpoints ops l.endpoints;
      body = onboarding_state s;
    }

    finished :
        (l : ResourceLink) (sent : List Update)
        → get_resource_link links "/oic/sec/pstat" ≡ some l
        → (finish ops device links sent).1 ≡ sent ++ state_update l rfnop ∷ []
    unfolding finish update_resource
    finished l sent e = ap (λ o. (update_link ops device links o (onboarding_state rfnop) sent).1) e

    started :
        (l : ResourceLink)
        → get_resource_link links "/oic/sec/pstat" ≡ some l
        → device (state_update l rfpro ∷ []) ≡ true
        → start ops device links [] ≡ (true, state_update l rfpro ∷ [])
    unfolding start update_resource
    started l e d =
        ap (λ o. update_link ops device links o (onboarding_state rfpro) []) e
        ∙ ap (λ b. (b, state_update l rfpro ∷ [])) d

    -- A session with a device that has the resource "/oic/sec/pstat" and agrees to be provisioned: it
    -- sends the state ready for provisioning first, and the state ready for normal operation last, once
    -- each, and between them the provisioning; all of it goes to secured endpoints alone, whatever the
    -- user calls and whatever the device answers.
    pub session-secured :
        (l : ResourceLink) (cs : List Call)
        → get_resource_link links "/oic/sec/pstat" ≡ some l
        → device (state_update l rfpro ∷ []) ≡ true
        → (middle : List Update) × (session ops device links cs []
            ≡ state_update l rfpro ∷ (middle ++ state_update l rfnop ∷ []))
          × All IsProvisioning middle
          × AllSecured (filter_secure_endpoints ops l.endpoints)
    unfolding session
    session-secured l cs e d =
        let a = calls-Adds cs (state_update l rfpro ∷ []) in
        (
          a.more,
          ap (provisioned ops device links cs) (started l e d)
              ∙ (finished l (calls ops device links cs (state_update l rfpro ∷ [])) e
                  ∙ ap (λ x. x ++ state_update l rfnop ∷ []) a.added),
          a.provisioning,
          filter_secure_endpoints-AllSecured l.endpoints,
        )
