-- ===== src/Client/Connections/Late.antt =====
-- The close handler of client/core/device.go when it runs after the address was dialled again.
use device.Common.{
  ℕ, String, ◌≡◌, refl, ap, ◌∙◌, Bool, true, false, none, some, eqb, eqb_iff, arith, eq_iff,
}
use device.Common.Dict.{lookup, remove, lookup-remove}
use device.Common.Eq.{string_eq}
use device.Client.Connections.{
  Conn, Device, created, load_or_create, living, dial_new, dial_object, dial, removes, remove_conn,
  connected, register, connect_object, connect_to_url, lose, close_handler,
}

eqb_refl : (n : ℕ) → eqb n n ≡ true
eqb_refl n = ground (arith, eqb_iff n n)

redial :
    (url : String) (n b : ℕ) (d : Device)
    → lookup url d.conn ≡ some n
    → (d.objects n).client ≡ some b
    → (d.objects n).failed ≡ false
    → connect_to_url true url (lose b d) ≡ register url n (dial_new true n (lose b d))
unfolding connect_to_url load_or_create dial lose
redial url n b d e k f =
    ap (λ o. connect_object true url (created o url (lose b d))) e
    ∙ (ap (λ o. register url n (dial_object (living (lose b d).alive o) true n (lose b d))) k
        ∙ rw (eqb_refl b, f) refl)

removes_held : (c : Conn) (x : ℕ) (same : Bool) → c.client ≡ some x → removes c c same ≡ true
removes_held c x same e = rw (e, eqb_refl x) refl

-- What the close handler of the lost connection does after the address was dialled again.
late_handler :
    (url : String) (n b : ℕ) (d : Device)
    → lookup url d.conn ≡ some n
    → eqb b d.next_client ≡ false
    → d.handlers b ≡ some (url, n)
    → let d' = (register url n (dial_new true n (lose b d))).1 in
      close_handler true b d' ≡ record d' { conn = remove url d'.conn }
unfolding close_handler remove_conn lose
late_handler url n b d e j l =
    let d' = (register url n (dial_new true n (lose b d))).1 in
    let held = removes_held (d'.objects n) d.next_client (eqb n n) (ground (arith, eqb_iff n n)) in
    rw (j, l, e) (rw held refl)

-- A connection is lost, and its address is dialled again before the close handler of the lost one runs:
-- the handler then takes the new connection, which is alive, out of the map, where Close does not find
-- it.
pub close_handler-late :
    (url : String) (n b : ℕ) (d : Device)
    → lookup url d.conn ≡ some n
    → (d.objects n).client ≡ some b
    → (d.objects n).failed ≡ false
    → eqb b d.next_client ≡ false
    → d.handlers b ≡ some (url, n)
    → ((connect_to_url true url (lose b d)).0 ≡ connected url d.next_client)
      × ((close_handler true b (connect_to_url true url (lose b d)).1).alive d.next_client ≡ true)
      × (lookup url (close_handler true b (connect_to_url true url (lose b d)).1).conn ≡ none)
unfolding lose
close_handler-late url n b d e k f j l =
    let late = late_handler url n b d e j l in
    rw (redial url n b d e k f) (
      refl,
      ap (λ x. x.alive d.next_client) late ∙ rw (eqb_refl d.next_client) refl,
      ap (λ x. lookup url x.conn) late
          ∙ lookup-remove url url d.conn
          ∙ ground (arith, eq_iff url url),
    )
