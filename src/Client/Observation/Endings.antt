-- ===== src/Client/Observation/Endings.antt =====
-- What Close of a device does to its observations, and what a user hears of one, in
-- client/core/observeResource.go.
use device.Common.{
  ℕ, suc, ◌+◌, ◌≤◌, String, ◌==◌, ◌≡◌, refl, sym, ap, ◌∙◌, subst, Bool, true, false, Option, none,
  some, List, [], ◌∷◌, ◌++◌, All, arith, eq_iff, Option-cases, Bool-cases, inl, inr,
}
use device.Common.Eq.{string_eq}
use device.Common.Dict.{lookup, store, remove, Distinct}
use device.Client.Observation.{
  Call, handled, closed_call, error_call, Handler, disable_handlers, handle, on_error, on_close,
  Observation, Device, stop, stop_observing_resource, visited, close_each, close_observations,
  observe_resource, closed_observation, connection_closed, on_each, with_handler, Event, observes,
  notified, failed, connection_lost, stops, closes, step, run,
}

remove-absent : (k : String) (m : List (String × Observation)) → lookup k m ≡ none → remove k m ≡ m
unfolding lookup remove
remove-absent k [] e = refl
remove-absent k ((j, o) ∷ m) e = ground (arith, remove-absent k m)

stop-removes :
    (b cancels : Bool) (id : String) (d : Device)
    → (stop_observing_resource b cancels id d).1.observations ≡ remove id d.observations
unfolding stop_observing_resource
stop-removes b cancels id d = elim (Option-cases (lookup id d.observations)) [
  | inl e ↦ simp e (sym (remove-absent id d.observations e))
  | inr (o, e) ↦ simp e refl
]

first_found :
    (id : String) (o : Observation) (m : List (String × Observation))
    → lookup id ((id, o) ∷ m) ≡ some o
unfolding lookup
first_found id o m = ground (arith, eq_iff id id)

stop-stops :
    (b cancels : Bool) (id : String) (o : Observation) (d : Device)
    → lookup id d.observations ≡ some o
    → (stop_observing_resource b cancels id d).1.stopped ≡ d.stopped ++ (id, stop b o) ∷ []
unfolding stop_observing_resource
stop-stops b cancels id o d e = simp e refl

-- closeObservations stops the one observation that Range visits first, as a close does, and no other;
-- all others stay in the map as they were.
pub close_observations-rest :
    (cancels : Bool) (d : Device) (id : String) (o : Observation) (m : List (String × Observation))
    → d.observations ≡ (id, o) ∷ m
    → Distinct d.observations
    → ((close_observations cancels d).observations ≡ m)
      × ((close_observations cancels d).stopped ≡ d.stopped ++ (id, stop true o) ∷ [])
unfolding close_observations visited close_each remove
close_observations-rest cancels d id o m e n = (
  ap (λ l. (close_each cancels (visited (λ k. false) l) d).observations) e
      ∙ (stop-removes true cancels id d
          ∙ (ap (remove id) e
              ∙ ground (arith, eq_iff id id, remove-absent id m (subst Distinct e n).0))),
  ap (λ l. (close_each cancels (visited (λ k. false) l) d).stopped) e
      ∙ stop-stops true cancels id o d (ap (lookup id) e ∙ first_found id o m),
)

-- How many of the calls were OnClose or Error.
abbrev pub endings : List Call → ℕ
endings [] = 0
endings (handled ∷ cs) = endings cs
endings (closed_call ∷ cs) = suc (endings cs)
endings (error_call ∷ cs) = suc (endings cs)

endings-append : (cs ds : List Call) → endings (cs ++ ds) ≡ endings cs + endings ds
endings-append [] ds = omega arith
endings-append (handled ∷ cs) ds = endings-append cs ds
endings-append (closed_call ∷ cs) ds = omega (arith, endings-append cs ds)
endings-append (error_call ∷ cs) ds = omega (arith, endings-append cs ds)

-- A handler that is open has had no ending, and any has had one at most.
pub record IsGuarded (h : Handler) : Type 0 where
  pub open_has_none : h.is_closed ≡ false → endings h.calls ≡ 0
  pub one_ending : endings h.calls ≤ 1

handle-IsGuarded : (h : Handler) → IsGuarded h → IsGuarded (handle h)
unfolding handle
handle-IsGuarded h g = ground (arith, endings-append h.calls (handled ∷ []))

on_error-IsGuarded : (h : Handler) → IsGuarded h → IsGuarded (on_error h)
unfolding on_error
on_error-IsGuarded h g = ground (arith, endings-append h.calls (error_call ∷ []))

on_close-IsGuarded : (h : Handler) → IsGuarded h → IsGuarded (on_close h)
unfolding on_close
on_close-IsGuarded h g = ground (arith, endings-append h.calls (closed_call ∷ []))

stop-IsGuarded : (b : Bool) (o : Observation) → IsGuarded o.handler → IsGuarded (stop b o).handler
unfolding stop disable_handlers
stop-IsGuarded b o g = ground (arith, on_close-IsGuarded o.handler g)

abbrev pub AllGuarded : List (String × Observation) → Type 0
AllGuarded = All (λ p. IsGuarded p.1.handler)

-- No handler of a device, of an observation in the map or taken out of it, hears two endings.
pub record Inv (d : Device) : Type 0 where
  pub in_map : AllGuarded d.observations
  pub out_of_map : AllGuarded d.stopped

store-AllGuarded :
    (k : String) (o : Observation) (m : List (String × Observation))
    → IsGuarded o.handler
    → AllGuarded m
    → AllGuarded (store k o m)
unfolding store
store-AllGuarded k o [] g a = (g, tt)
store-AllGuarded k o ((j, p) ∷ m) g a = ground (arith, store-AllGuarded k o m g a.1)

remove-AllGuarded :
    (k : String) (m : List (String × Observation)) → AllGuarded m → AllGuarded (remove k m)
unfolding remove
remove-AllGuarded k [] a = tt
remove-AllGuarded k ((j, p) ∷ m) a = ground (arith, remove-AllGuarded k m a.1)

append-AllGuarded :
    (k : String) (o : Observation) (m : List (String × Observation))
    → AllGuarded m
    → IsGuarded o.handler
    → AllGuarded (m ++ (k, o) ∷ [])
append-AllGuarded k o [] a g = (g, tt)
append-AllGuarded k o ((j, p) ∷ m) a g = (a.0, append-AllGuarded k o m a.1 g)

lookup-AllGuarded :
    (k : String) (o : Observation) (m : List (String × Observation))
    → AllGuarded m
    → lookup k m ≡ some o
    → IsGuarded o.handler
unfolding lookup
lookup-AllGuarded k o [] a e = cc
lookup-AllGuarded k o ((j, p) ∷ m) a e = ground (arith, lookup-AllGuarded k o m a.1)

on_each-AllGuarded :
    (f : Handler → Handler) (k : String) (m : List (String × Observation))
    → ((h : Handler) → IsGuarded h → IsGuarded (f h))
    → AllGuarded m
    → AllGuarded (on_each f k m)
on_each-AllGuarded f k [] g a = tt
on_each-AllGuarded f k ((j, p) ∷ m) g a = elim (Bool-cases (j == k)) [
  | inl t ↦ rw t (g p.handler a.0, on_each-AllGuarded f k m g a.1)
  | inr t ↦ rw t (a.0, on_each-AllGuarded f k m g a.1)
]

stop_observing_resource-Inv :
    (b cancels : Bool) (id : String) (d : Device)
    → Inv d
    → Inv (stop_observing_resource b cancels id d).1
unfolding stop_observing_resource
stop_observing_resource-Inv b cancels id d i = elim (Option-cases (lookup id d.observations)) [
  | inl e ↦ simp e i
  | inr (o, e) ↦ simp e (record {
    in_map = remove-AllGuarded id d.observations i.in_map;
    out_of_map =
        append-AllGuarded id (stop b o) d.stopped i.out_of_map
          (stop-IsGuarded b o (lookup-AllGuarded id o d.observations i.in_map e));
  })
]

close_each-Inv :
    (cancels : Bool) (ids : List String) (d : Device) → Inv d → Inv (close_each cancels ids d)
unfolding close_each
close_each-Inv cancels [] d i = i
close_each-Inv cancels (id ∷ ids) d i =
    close_each-Inv cancels ids _ (stop_observing_resource-Inv true cancels id d i)

closed_observation-Inv :
    (id : String) (o : Option Observation) (d : Device)
    → lookup id d.observations ≡ o
    → Inv d
    → Inv (closed_observation id o d)
closed_observation-Inv id none d e i = i
closed_observation-Inv id (some o) d e i = record {
  in_map =
      store-AllGuarded id (record o { handler = on_close o.handler }) d.observations
        (on_close-IsGuarded o.handler (lookup-AllGuarded id o d.observations i.in_map e)) i.in_map;
  out_of_map = i.out_of_map;
}

connection_closed-Inv :
    (cancels : Bool) (id : String) (d : Device) → Inv d → Inv (connection_closed cancels id d)
unfolding connection_closed
connection_closed-Inv cancels id d i =
    stop_observing_resource-Inv false cancels id _ (closed_observation-Inv id _ d refl i)

observe_resource-Inv :
    (ok : Bool) (id : String) (d : Device) → Inv d → Inv (observe_resource ok id d)
unfolding observe_resource
observe_resource-Inv false id d i = i
observe_resource-Inv true id d i = record {
  in_map =
      store-AllGuarded id _ d.observations
        (record { open_has_none = λ h. refl; one_ending = omega arith }) i.in_map;
  out_of_map = i.out_of_map;
}

with_handler-Inv :
    (f : Handler → Handler) (id : String) (d : Device)
    → ((h : Handler) → IsGuarded h → IsGuarded (f h))
    → Inv d
    → Inv (with_handler f id d)
with_handler-Inv f id d g i = record {
  in_map = on_each-AllGuarded f id d.observations g i.in_map;
  out_of_map = on_each-AllGuarded f id d.stopped g i.out_of_map;
}

step-Inv : (d : Device) (e : Event) → Inv d → Inv (step d e)
unfolding step close_observations
step-Inv d (observes ok id) i = observe_resource-Inv ok id d i
step-Inv d (notified id) i = with_handler-Inv handle id d handle-IsGuarded i
step-Inv d (failed id) i = with_handler-Inv on_error id d on_error-IsGuarded i
step-Inv d (connection_lost cancels id) i = connection_closed-Inv cancels id d i
step-Inv d (stops cancels id) i = stop_observing_resource-Inv false cancels id d i
step-Inv d (closes cancels) i = close_each-Inv cancels _ d i

-- Whatever happens to a device and its connections: of each of its observations, in the map or stopped,
-- the user's handler hears OnClose or Error once at most.
pub run-Inv : (d : Device) (es : List Event) → Inv d → Inv (run d es)
unfolding run
run-Inv d [] i = i
run-Inv d (e ∷ es) i = run-Inv (step d e) es (step-Inv d e i)
