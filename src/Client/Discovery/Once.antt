-- ===== src/Client/Discovery/Once.antt =====
-- Every device of a discovery is handed on once.
use device.Common.{
  ℕ, ◌+◌, ◌≤◌, String, ◌==◌, eq_iff, ◌≡◌, refl, ap, ◌∙◌, Bool, true, false, Option, none, some,
  List, [], ◌∷◌, ◌++◌, is_empty, arith, if◌then◌else◌, Bool-cases, inl, inr,
}
use device.Common.Keys.{has, insert, has-insert}
use device.Schema.Link.{ResourceLink, get_device_id, get_resource_link}
use device.Client.Discovery.{
  Handler, report, group_links, or_else, hand_on, hand_on_all, handle, run, new_handler,
}

-- How often a device is among those that were handed on.
abbrev pub times : String → List (String × List String) → ℕ
times id [] = 0
times id ((j, ts) ∷ ds) = (if j == id then 1 else 0) + times id ds

times-append :
    (id : String) (xs ys : List (String × List String))
    → times id (xs ++ ys) ≡ times id xs + times id ys
times-append id [] ys = omega arith
times-append id ((j, ts) ∷ xs) ys = omega (arith, times-append id xs ys)

-- A device was handed on once just when it is in the filter, and else never.
abbrev Filtered : Handler → Type 0
Filtered h =
    (id : String)
    → times id h.handled.devices ≡ (if has id h.filter_discovered_devices then 1 else 0)

group_links-Filtered :
    (ls : List ResourceLink) (m : List (String × List ResourceLink)) (h : Handler)
    → Filtered h
    → Filtered (group_links ls m h).1
unfolding group_links
group_links-Filtered [] m h f = f
group_links-Filtered (l ∷ ls) m h f = elim (Bool-cases (get_device_id l == "")) [
  | inl t ↦ rw t (group_links-Filtered ls m (report h) f)
  | inr n ↦ rw n (group_links-Filtered ls _ h f)
]

same_key : (id j : String) (xs : List String) → (id == j) ≡ true → has id xs ≡ has j xs
same_key id j xs t = ap (λ k. has k xs) ((eq_iff id j).0 t)

handed_on :
    (j id : String) (types : List String) (h : Handler)
    → Filtered h
    → has id h.filter_discovered_devices ≡ false
    → times j (h.handled.devices ++ (id, types) ∷ [])
      ≡ (if has j (insert id h.filter_discovered_devices) then 1 else 0)
handed_on j id types h f u =
    times-append j h.handled.devices ((id, types) ∷ [])
    ∙ ground (
      arith,
      f j,
      u,
      has-insert j id h.filter_discovered_devices,
      same_key id j h.filter_discovered_devices,
    )

hand_on-Filtered :
    (id : String) (o : Option ResourceLink) (h : Handler) → Filtered h → Filtered (hand_on id o h)
hand_on-Filtered id none h f = f
hand_on-Filtered id (some l) h f = elim (Bool-cases (is_empty l.resource_types)) [
  | inl t ↦ rw t f
  | inr n ↦ elim (Bool-cases (has id h.filter_discovered_devices)) [
    | inl t ↦ rw (n, t) f
    | inr u ↦ rw (n, u) (λ j. handed_on j id l.resource_types h f u)
  ]
]

hand_on_all-Filtered :
    (m : List (String × List ResourceLink)) (h : Handler) → Filtered h → Filtered (hand_on_all m h)
unfolding hand_on_all
hand_on_all-Filtered [] h f = f
hand_on_all-Filtered ((id, ls) ∷ m) h f =
    let o = or_else (get_resource_link ls "/oic/d") (get_resource_link ls "/oic/res") in
    hand_on_all-Filtered m (hand_on id o h) (hand_on-Filtered id o h f)

handle-Filtered :
    (close_fails : Bool) (links : List ResourceLink) (h : Handler)
    → Filtered h
    → Filtered (handle close_fails links h)
unfolding handle
handle-Filtered true links h f =
    let g = group_links links [] (report h) in
    hand_on_all-Filtered g.0 g.1 (group_links-Filtered links [] (report h) f)
handle-Filtered false links h f =
    let g = group_links links [] h in
    hand_on_all-Filtered g.0 g.1 (group_links-Filtered links [] h f)

run-Filtered :
    (answers : List (Bool × List ResourceLink)) (h : Handler)
    → Filtered h
    → Filtered (run answers h)
unfolding run
run-Filtered [] h f = f
run-Filtered ((c, links) ∷ answers) h f =
    run-Filtered answers (handle c links h) (handle-Filtered c links h f)

-- However many answers come to a discovery, and with whatever links: a device is handed to the user once
-- at most, and it is just when its ID was stored in the filter.
pub run-once :
    (answers : List (Bool × List ResourceLink)) (id : String)
    → (times id (run answers new_handler).handled.devices ≤ 1)
      × (times id (run answers new_handler).handled.devices
          ≡ (if has id (run answers new_handler).filter_discovered_devices then 1 else 0))
run-once answers id =
    let f = run-Filtered answers new_handler (λ j. refl) id in (ground (arith, f), f)
