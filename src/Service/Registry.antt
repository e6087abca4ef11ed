-- ===== src/Service/Registry.antt =====
-- What the registry of bridge/service/service.go promises: one device for an identifier.
use device.Common.{
  String, ◌==◌, ◌≡◌, refl, ap, ◌∙◌, Bool, true, false, ◌&&◌, Option, none, some, List,
  if◌then◌else◌, arith, eq_iff, Option-cases, inl, inr,
}
use device.Common.Eq.{string_eq}
use device.Common.Dict.{lookup, lookup-store, lookup-remove}
use device.Device.{Device, nil_uuid, close_device}
use device.Service.{
  Service, Request, handled_by, load_device, default_request_handler, created, create_error,
  already_exists, new_device_failed, create_device, get_or_create_device, get_and_delete_device,
  delete_and_close_device, replaced, create_result, get_or_create_result,
}

-- The device under an identifier after CreateDevice or GetOrCreateDevice.
abbrev or_new : Option Device → Option Device → Option Device
or_new (some old) new_device = some old
or_new none new_device = new_device

lookup-replaced :
    (old new_device : Option Device) (id j : String) (m : List (String × Device))
    → lookup id m ≡ old
    → lookup j (replaced old new_device id m)
      ≡ (if id == j then or_new old new_device else lookup j m)
unfolding replaced
lookup-replaced (some d) new_device id j m e = ground (arith, eq_iff id j, lookup-store id j d m)
lookup-replaced none (some n) id j m e = ground (arith, eq_iff id j, lookup-store id j n m)
lookup-replaced none none id j m e = ground (arith, eq_iff id j, lookup-remove id j m)

create_result_lem :
    (old new_device : Option Device)
    → create_result old new_device ≡ elim old [
      | some d ↦ create_error already_exists
      | none ↦ elim new_device [ none ↦ create_error new_device_failed | some d ↦ created d ]
    ]
create_result_lem (some d) new_device = refl
create_result_lem none none = refl
create_result_lem none (some d) = refl

returned-is_new :
    (old new_device : Option Device) (d : Device) (loaded : Bool)
    → get_or_create_result old new_device ≡ some (d, loaded)
    → or_new old new_device ≡ some d
returned-is_new (some o) new_device d loaded h = cc
returned-is_new none (some n) d loaded h = cc
returned-is_new none none d loaded h = cc

created-is_new :
    (old new_device : Option Device) (d : Device)
    → create_result old new_device ≡ created d
    → or_new old new_device ≡ some d
created-is_new (some o) new_device d h = cc
created-is_new none (some n) d h = cc
created-is_new none none d h = cc

-- The new entry, under its own identifier.
lookup-replaced-new :
    (new_device : Option Device) (id : String) (m : List (String × Device))
    → lookup id (replaced (lookup id m) new_device id m) ≡ or_new (lookup id m) new_device
lookup-replaced-new new_device id m =
    ground (arith, eq_iff id id, lookup-replaced (lookup id m) new_device id id m refl)

-- CreateDevice returns the new device, or an error: that the device exists, where one does, and else
-- that newDevice failed. After it the identifier has the device that was there, and else the new
-- one, if there is one; every other identifier has what it had.
create_device_lem :
    (id j : String) (new_device : Option Device) (c : Service)
    → (create_device id new_device c).0 ≡ elim (load_device id c) [
      | some old ↦ create_error already_exists
      | none ↦ elim new_device [ none ↦ create_error new_device_failed | some d ↦ created d ]
    ]
      × load_device j (create_device id new_device c).1
        ≡ (if id == j then or_new (load_device id c) new_device else load_device j c)
unfolding create_device load_device
create_device_lem id j new_device c = (
  create_result_lem (lookup id c.devices) new_device,
  lookup-replaced (lookup id c.devices) new_device id j c.devices refl,
)

-- After a GetOrCreateDevice that returns a device, another one for the same identifier returns the
-- same device as loaded, whatever its newDevice would make, and so does CreateDevice fail.
get_or_create_device-again :
    (id : String) (first second : Option Device) (c : Service) (d : Device) (loaded : Bool)
    → (get_or_create_device id first c).0 ≡ some (d, loaded)
    → (get_or_create_device id second (get_or_create_device id first c).1).0 ≡ some (d, true)
      × (create_device id second (get_or_create_device id first c).1).0
        ≡ create_error already_exists
unfolding get_or_create_device create_device
get_or_create_device-again id first second c d loaded h =
    let e =
      lookup-replaced-new first id c.devices
      ∙ returned-is_new (lookup id c.devices) first d loaded h in
    (ap (λ o. get_or_create_result o second) e, ap (λ o. create_result o second) e)

-- A request that names a device, and asks for a path other than the empty one and, with GET,
-- /.well-known/core, is handled by the device that CreateDevice returned for that identifier.
pub create_device-routes :
    (id : String) (new_device : Option Device) (c : Service) (d : Device) (req : Request)
    → (create_device id new_device c).0 ≡ created d
    → req.device_id ≡ id
    → (id == nil_uuid) ≡ false
    → (req.uri_path == "") ≡ false
    → (req.is_get && (req.uri_path == "/.well-known/core")) ≡ false
    → default_request_handler req (create_device id new_device c).1 ≡ handled_by d
unfolding create_device load_device default_request_handler
create_device-routes id new_device c d req h e n p w =
    let e' =
      lookup-replaced-new new_device id c.devices
      ∙ created-is_new (lookup id c.devices) new_device d h in
    rw (p, w, e, n, e') (ground arith)

-- DeleteAndCloseDevice returns true and leaves the device closed where there is one under the
-- identifier, and returns false where there is none. After it the identifier has no device, and
-- every other has what it had.
delete_and_close_device_lem :
    (id j : String) (c : Service)
    → (delete_and_close_device id c).0
        ≡ elim (load_device id c) [ none ↦ (false, none) | some d ↦ (true, some (close_device d)) ]
      × load_device j (delete_and_close_device id c).1 ≡ (if id == j then none else load_device j c)
unfolding delete_and_close_device load_device get_and_delete_device
delete_and_close_device_lem id j c = elim (Option-cases (lookup id c.devices)) [
  | inl e ↦ rw e (refl, lookup-remove id j c.devices)
  | inr (d, e) ↦ rw e (refl, lookup-remove id j c.devices)
]
