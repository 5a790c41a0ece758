-- ===== src/NetClient/Receive/Stores.antt =====
-- From the bytes of an update to the entry in the store.
use peerboot_cpp.Prelude.{
  ℕ, ◌^◌, ◌≡◌, refl, ap, ◌∙◌, false, Option, none, some, [], ◌∷◌, ◌++◌, arith, get_elem?, set, ltb,
  if◌then◌else◌,
}
use peerboot_cpp.Text.{Str}
use peerboot_cpp.Text.Cut.{Without}
use peerboot_cpp.TimeStamp.{now}
use peerboot_cpp.Store.{StoredPeer, find_peer}
use peerboot_cpp.Store.Lookup.{updated, reported}
use peerboot_cpp.Wire.{peer_line}
use peerboot_cpp.Wire.RoundTrip.{IsPrintable}
use peerboot_cpp.World.{World, Env, Client, received}
use peerboot_cpp.Message.{PeerUpdateMessage, update, message_text, peer_update_message}
use peerboot_cpp.PeboNet.{msg_from_pebo_peer, peer_update_from_pebo_peer}
use peerboot_cpp.PeboNet.Sends.{WritesSucceed, framed}
use peerboot_cpp.PeboNet.Updates.{entry_after, find_peer-stored}
use peerboot_cpp.PeboNet.Flood.{peer_update-Frame}
use peerboot_cpp.NetClient.Receive.{handle_line, append_received}
use peerboot_cpp.NetClient.Receive.Delivery.{append_received_message}
use peerboot_cpp.NetClient.Receive.Ready.{Ready, arrived, handle_line-Goes}

-- The entry says what was reported.
abbrev pub Says : ℕ → StoredPeer → Type 0
Says last_seen p = (p.last_seen ≡ last_seen) × (p.is_removed ≡ false)

updated-Says :
    (t seen : ℕ) (p : StoredPeer) (o : Option StoredPeer) → Says seen p → Says seen (updated t p o)
updated-Says t seen p none h = h
updated-Says t seen p (some old) h = ground (arith, h.0, h.1)

-- After a line about a peer, the store has it.
handle_line-stores :
    (env : Env) (id : ℕ) (s e : Str) (t : ℕ) (w w' : World) (c : Client)
    → get_elem? w.clients id ≡ some c
    → handle_line env id (peer_line s e t) w ≡ some (tt, w')
    → (p : StoredPeer) × (find_peer w'.net.store s e ≡ some p) × Says t p
unfolding handle_line msg_from_pebo_peer peer_update_message
handle_line-stores env id s e t w w' c here h =
    let v : World = record w { clients = set w.clients id (record c { state = received }) } in
    let m = arrived env s e t v in
    let done : peer_update_from_pebo_peer env id m v ≡ some (tt, w') = rw here at h in
    (
      entry_after env m v,
      ap (λ n. find_peer n.store s e) (peer_update-Frame env id m v w' done).net
          ∙ find_peer-stored env m v,
      updated-Says (now (env.seconds v.trace)) t (reported s e false t) (find_peer v.net.store s e)
          (refl, refl),
    )

-- When the framed text of a printable update reaches an empty receive buffer of a node in order whose
-- writes succeed, the node handles it without failing and afterwards has the peer in its store, with
-- the time that was sent if that is below 2 ^ 31 and else 0, and as not removed, also where the update
-- says that the peer is removed. (A zero byte stands right behind the
-- bytes that arrived in the read buffer, and the names have none.)
pub append_received_stores :
    (env : Env) (id h : ℕ) (w : World) (c : Client) (m : PeerUpdateMessage) (junk : Str)
    → WritesSucceed env
    → Ready id h w
    → get_elem? w.clients id ≡ some c
    → c.receive_buffer ≡ []
    → IsPrintable (update m)
    → Without 0 (message_text (update m))
    → (w' : World) × (append_received env id (some (framed (update m) ++ 0 ∷ junk)) w
        ≡ some (tt, w'))
      × ((p : StoredPeer) × (find_peer w'.net.store m.service m.endpoint ≡ some p)
          × Says (if ltb m.last_seen (2 ^ 31) then m.last_seen else 0) p)
append_received_stores env id h w c m junk ok r here empty printable zeros =
    let seen = if ltb m.last_seen (2 ^ 31) then m.last_seen else 0 in
    let (w', done, _) = handle_line-Goes env id h ok (peer_line m.service m.endpoint seen) w r in
    (
      w',
      append_received_message env id w c (update m) junk here empty printable zeros ∙ done,
      handle_line-stores env id m.service m.endpoint seen w w' c here done,
    )
