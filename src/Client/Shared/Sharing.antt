-- ===== src/Client/Shared/Sharing.antt =====
-- Who is served by one observation of client/observeResource.go, and when the device's observation
-- ends.
use device.Common.{
  ℕ, String, ◌==◌, ◌≡◌, refl, ap, ◌∙◌, Bool, true, false, Option, none, some, List, [], ◌∷◌, ◌++◌,
  is_empty, if◌then◌else◌, arith, eq_iff, Option-cases, Bool-cases, ◌⊎◌, inl, inr,
}
use device.Common.Keys.{has, insert, delete, has-delete}
use device.Common.Eq.{string_eq}
use device.Common.Dict.{lookup, store, remove, lookup-store, lookup-remove}
use device.Client.Shared.{
  handled, closed_call, Handler, handle_message_locked, handle_first_message, tell, Group, Client,
  leave, left_group, without, empty_group, observe_in, observed, observe_error, observe_resource,
  Left, still_observed, stopped_device, stop_observing_resource, each, on_close, first_message,
}

lookup-store_self :
    {V : Type 0} (k : String) (v : V) (m : List (String × V)) → lookup k (store k v m) ≡ some v
lookup-store_self k v m = lookup-store k k v m ∙ ground (arith, eq_iff k k)

lookup-remove_self :
    {V : Type 0} (k : String) (m : List (String × V)) → lookup k (remove k m) ≡ none
lookup-remove_self k m = lookup-remove k k m ∙ ground (arith, eq_iff k k)

abbrev changed : (Handler → Handler) → Bool → Option Handler → Option Handler
changed f b none = none
changed f b (some h) = some (if b then f h else h)

lookup-each :
    (f : Handler → Handler) (ids : List String) (k : String) (m : List (String × Handler))
    → lookup k (each f ids m) ≡ changed f (has k ids) (lookup k m)
unfolding each lookup
lookup-each f ids k [] = refl
lookup-each f ids k ((j, h) ∷ m) = elim (Bool-cases (j == k)) [
  | inl t ↦ rw (t, (eq_iff j k).0 t) refl
  | inr t ↦ rw t (lookup-each f ids k m)
]

-- When ObserveResource fails to observe the device, it leaves the resource in the cache: the next
-- ObserveResource of it succeeds without any observation of a device, whatever the device would answer.
pub observe_resource-after_failure :
    (key id id' : String) (result : Option (String × String)) (c : Client)
    → (observe_resource key id none c).0 ≡ observe_error
    → ((observe_resource key id' result (observe_resource key id none c).1).0 ≡ observed key id')
      × ((observe_resource key id' result (observe_resource key id none c).1).1.active ≡ c.active)
unfolding observe_resource
observe_resource-after_failure key id id' result c h = elim (Option-cases (lookup key c.cache)) [
  | inr (g, e) ↦ absurd (ground (arith, h, ap (λ o. (observe_in o key id none c).0) e))
  | inl e ↦ simp e (
      let s = lookup-store_self key (record empty_group { observers = insert id [] }) c.cache in
      (
        ap (λ o. (observe_in o key id' result (observe_in none key id none c).1).0) s,
        ap (λ o. (observe_in o key id' result (observe_in none key id none c).1).1.active) s,
      ))
]

abbrev stopped : String → Group → Client → Client
stopped key g c = record c { cache = remove key c.cache; active = delete g.observation_id c.active }

left_group-device :
    (g : Group) (dev : String)
    → g.device ≡ some dev
    → left_group g ≡ stopped_device g.observation_id
left_group-device g dev d =
    ap
      (λ o. elim o as (λ _. Left) [
        | none ↦ still_observed
        | some _ ↦ stopped_device g.observation_id
      ])
      d

leave-last :
    (key id dev : String) (g : Group) (c : Client)
    → g.device ≡ some dev
    → has id g.observers ≡ true
    → is_empty (delete id g.observers) ≡ true
    → leave (some g) key id c ≡ (stopped_device g.observation_id, stopped key g c)
leave-last key id dev g c d m t =
    rw (m, t)
      (ap (λ l. without key l (record c { cache = remove key c.cache }))
        (left_group-device g dev d))

-- StopObservingResource of one of the observers of a device: as long as others are left, the device's
-- observation goes on, and the group holds exactly the others; the last one stops the device's
-- observation and takes the group out of the cache.
pub stop_observing_resource_lem :
    (key id dev : String) (g : Group) (c : Client)
    → lookup key c.cache ≡ some g
    → g.device ≡ some dev
    → has id g.observers ≡ true
    → ((is_empty (delete id g.observers) ≡ true)
        × ((stop_observing_resource key id c).0 ≡ stopped_device g.observation_id)
        × (has g.observation_id (stop_observing_resource key id c).1.active ≡ false)
        × (lookup key (stop_observing_resource key id c).1.cache ≡ none))
      ⊎ ((is_empty (delete id g.observers) ≡ false)
          × ((stop_observing_resource key id c).0 ≡ still_observed)
          × ((stop_observing_resource key id c).1.active ≡ c.active)
          × (lookup key (stop_observing_resource key id c).1.cache
              ≡ some (record g { observers = delete id g.observers })))
unfolding stop_observing_resource
stop_observing_resource_lem key id dev g c e d m =
    elim (Bool-cases (is_empty (delete id g.observers))) [
      | inl t ↦
          rw (e, leave-last key id dev g c d m t)
            (inl (
              t,
              refl,
              ground (
                arith,
                has-delete g.observation_id g.observation_id c.active,
                eq_iff g.observation_id g.observation_id,
              ),
              lookup-remove_self key c.cache,
            ))
      | inr t ↦ rw (e, m, t) (inr (refl, refl, refl, lookup-store_self key _ c.cache))
    ]

told-close :
    (key id : String) (g : Group) (h : Handler) (c : Client)
    → lookup key c.cache ≡ some g
    → has id g.observers ≡ true
    → lookup id c.handlers ≡ some h
    → lookup id (on_close key c).handlers ≡ some (tell closed_call h)
unfolding on_close
told-close key id g h c e m l =
    rw e (lookup-each (tell closed_call) g.observers id c.handlers ∙ rw (m, l) refl)

has_self : (id : String) → has id (id ∷ []) ≡ true
has_self id = ground (arith, eq_iff id id)

late_message :
    (n : ℕ) (h : Handler)
    → h.is_closed ≡ false
    → h.first_message ≡ some n
    → handle_first_message (tell closed_call h)
      ≡ record h { calls = (h.calls ++ closed_call ∷ []) ++ handled n ∷ [] }
unfolding handle_first_message tell handle_message_locked
late_message n h o f = rw (f, o) refl

-- A handler whose first message is still to be delivered hears it after OnClose, if the goroutine that
-- delivers it runs only then.
first_message-after_close :
    (key id : String) (n : ℕ) (g : Group) (h : Handler) (c : Client)
    → lookup key c.cache ≡ some g
    → has id g.observers ≡ true
    → lookup id c.handlers ≡ some h
    → h.is_closed ≡ false
    → h.first_message ≡ some n
    → lookup id (first_message id (on_close key c)).handlers
      ≡ some (record h { calls = (h.calls ++ closed_call ∷ []) ++ handled n ∷ [] })
unfolding first_message on_close
first_message-after_close key id n g h c e m l o f =
    lookup-each handle_first_message (id ∷ []) id (on_close key c).handlers
    ∙ ap (λ x. changed handle_first_message (has id (id ∷ [])) x) (told-close key id g h c e m l)
    ∙ ap (λ b. some (if b then handle_first_message (tell closed_call h) else tell closed_call h))
        (has_self id)
    ∙ ap some (late_message n h o f)
