-- ===== src/Cloud/Requests/Published.antt =====
-- A request of the cloud to a link that bridge/device/cloud/manager.go published reaches the resource.
use device.Common.{
  String, ◌==◌, ◌≡◌, refl, ap, ◌∙◌, subst, Bool, true, false, Option, some, List, [], ◌∷◌, map, All,
  if◌then◌else◌, Bool-cases, inl, inr,
}
use device.Schema.Link.{ResourceLink, has_type}
use device.Cloud.Publish.{device_type, device_uri, patch_device_link, hrefs}
use device.Cloud.Requests.{
  discovery_uri, Request, Parts, in_filter_supported_codes, device_path, handle_device_resource,
  call_handler, response, with_device, serve_coap,
}

-- The link is not at "/oic/d", nor at "/oic/res".
abbrev pub IsPlain : ResourceLink → Type 0
IsPlain l = ((l.href == device_uri) ≡ false) × ((l.href == discovery_uri) ≡ false)

abbrev PlainIf : Bool → Type 0 → Type 0 → Type 0
PlainIf true a b = a
PlainIf false a b = b

-- All links are plain but the first one of the device.
abbrev pub PlainBut : List ResourceLink → Type 0
PlainBut [] = Unit
PlainBut (l ∷ ls) = PlainIf (has_type l device_type) (All IsPlain ls) (IsPlain l × PlainBut ls)

module _ {R : Type 0} (m : Parts R) where
  -- What the handler answers to a request with this path.
  abbrev pub handled : Request → String → Option R
  handled r href = response m (m.handler (record (with_device m r) { path = some href }))

  abbrev pub served : Request → String → Option R
  served r uri = serve_coap m (record r { path = some uri })

  plain_served :
      (r : Request) (l : ResourceLink)
      → in_filter_supported_codes r.code ≡ true
      → IsPlain l
      → served r l.href ≡ handled r l.href
  unfolding serve_coap call_handler
  plain_served r l s p = rw (s, p.0, p.1) refl

  All-served :
      (r : Request) (ls : List ResourceLink)
      → in_filter_supported_codes r.code ≡ true
      → All IsPlain ls
      → map (served r) (hrefs ls) ≡ map (handled r) (hrefs ls)
  All-served r [] s p = refl
  All-served r (l ∷ ls) s p = λ i. plain_served r l s p.0 i ∷ All-served r ls s p.1 i

  device_served :
      (r : Request) (href : String)
      → in_filter_supported_codes r.code ≡ true
      → device_path (m.get_links []) (some device_uri) ≡ some href
      → served r device_uri ≡ handled r href
  unfolding serve_coap call_handler handle_device_resource
  device_served r href s d =
      rw s (ap (λ p. response m (m.handler (record (with_device m r) { path = p }))) d)

  served-published :
      (r : Request) (ls : List ResourceLink)
      → in_filter_supported_codes r.code ≡ true
      → device_path (m.get_links []) (some device_uri) ≡ device_path ls (some device_uri)
      → PlainBut ls
      → map (served r) (hrefs (patch_device_link ls)) ≡ map (handled r) (hrefs ls)
  unfolding patch_device_link device_path
  served-published r [] s d p = refl
  served-published r (l ∷ ls) s d p = elim (Bool-cases (has_type l device_type)) [
    | inl t ↦
        let tail = subst (λ b. PlainIf b (All IsPlain ls) (IsPlain l × PlainBut ls)) t p in
        let path = d ∙ ap (λ b. if b then some l.href else device_path ls (some device_uri)) t in
        rw t (λ i. device_served r l.href s path i ∷ All-served r ls s tail i)
    | inr f ↦
        let tail = subst (λ b. PlainIf b (All IsPlain ls) (IsPlain l × PlainBut ls)) f p in
        let path = d ∙ ap (λ b. if b then some l.href else device_path ls (some device_uri)) f in
        rw f (λ i. plain_served r l s tail.0 i ∷ served-published r ls s path tail.1 i)
  ]

  -- The links that the manager publishes and the requests that it serves fit together: a request of the
  -- cloud to a published link reaches the handler at the link's own path, also for the link of the device,
  -- which is published as "/oic/d". The request has a supported method, and but for the device's link none
  -- is at "/oic/d" or "/oic/res".
  pub serve_coap-published :
      (r : Request)
      → in_filter_supported_codes r.code ≡ true
      → PlainBut (m.get_links [])
      → map (served r) (hrefs (patch_device_link (m.get_links [])))
        ≡ map (handled r) (hrefs (m.get_links []))
  serve_coap-published r s p = served-published r (m.get_links []) s refl p
