-- ===== src/PeboNet/Broadcast.antt =====
-- What a broadcast sends, when libuv accepts the writes.
use peerboot_cpp.Prelude.{
  ℕ, ◌≡◌, refl, ap, true, none, some, List, [], ◌∷◌, arith, get_elem?, ◌⊎◌, Bool-cases,
  Option-cases, inl, inr,
}
use peerboot_cpp.Prelude.Int.{pos}
use peerboot_cpp.Text.{Str, str_eq}
use peerboot_cpp.World.{World, Env, PeerWithId, Stream, wild, null, handle, wrote}
use peerboot_cpp.Machine.{M, ◌>>◌}
use peerboot_cpp.Message.{Message}
use peerboot_cpp.NetClient.{send_message, is_shut}
use peerboot_cpp.Types.{err_ok}
use peerboot_cpp.PeboNet.{send_to_all, do_broadcast_msg}
use peerboot_cpp.PeboNet.Sends.{
  AllUsable, AllUsable-Sends, Sends, Sends-refl, Sends-writes, WritesSucceed, framed, has_handle,
  is_usable, opened, recipients, send_message-Sends, usable, writes,
}

-- The induction step of the broadcast: one recipient, and the rest.
module _ (env : Env) (msg : Message) (origin : Str) (p : PeerWithId) (peers : List PeerWithId) where
  abbrev rest : M (Unit {0})
  rest = send_to_all env msg origin peers

  send_then :
      (w : World) (h : ℕ)
      → WritesSucceed env
      → opened w.clients p.peer ≡ some h
      → ((v : World)
          → Sends w v (wrote p.peer h (framed msg) ∷ [])
          → (w' : World) × (rest v ≡ some (tt, w'))
            × Sends v w' (writes (opened v.clients) (framed msg) (recipients origin peers)))
      → (w' : World) × ((send_message env p.peer msg >> rest) w ≡ some (tt, w'))
        × Sends w w' (writes (opened w.clients) (framed msg) (p ∷ recipients origin peers))
  send_then w h ok e later =
      let (v, sent, f) = send_message-Sends env p.peer h msg w ok e in
      let (w', done, g) = later v f in
      (w', rw (sent) done, Sends-writes w v w' p h (framed msg) (recipients origin peers) e f g)

pub has_handle-eq-true : (s : Stream) → has_handle s ≡ true → (h : ℕ) × (s ≡ handle h)
has_handle-eq-true wild e = cc
has_handle-eq-true null e = cc
has_handle-eq-true (handle h) e = (h, refl)

-- A usable connection is open, or it drops the message.
pub usable-cases :
    (env : Env) (id : ℕ) (msg : Message) (w : World)
    → usable w.clients id ≡ true
    → ((h : ℕ) × (opened w.clients id ≡ some h))
      ⊎ (opened w.clients id ≡ none) × (send_message env id msg w ≡ some (pos 0, w))
unfolding send_message
usable-cases env id msg w u = elim (Option-cases (get_elem? w.clients id)) [
  | inl e ↦ cc (ap is_usable e, u)
  | inr (c, e) ↦ elim (Bool-cases (is_shut c.state)) [
    | inl shut ↦ inr (ground (arith, e, shut), ground (arith, e, shut))
    | inr live ↦
        let (h, on) = has_handle-eq-true c.stream (ground (arith, u, e, live)) in
        inl (h, ground (arith, e, live, on))
  ]
]

pub send_to_all-Sends :
    (env : Env) (msg : Message) (origin : Str) (peers : List PeerWithId) (w : World)
    → WritesSucceed env
    → AllUsable w.clients (recipients origin peers)
    → (w' : World) × (send_to_all env msg origin peers w ≡ some (tt, w'))
      × Sends w w' (writes (opened w.clients) (framed msg) (recipients origin peers))
unfolding send_to_all
send_to_all-Sends env msg origin [] w ok o = (w, refl, Sends-refl w)
send_to_all-Sends env msg origin (p ∷ peers) w ok o =
    elim (Bool-cases (str_eq p.node_addr origin)) [
      | inl same ↦ rw same (send_to_all-Sends env msg origin peers w ok (rw same at o))
      | inr other ↦
          let (u, o') = rw other at o in
          elim (usable-cases env p.peer msg w u) [
            | inl (h, e) ↦ rw other (
                send_then env msg origin p peers w h ok e λ v f.
                  send_to_all-Sends env msg origin peers v ok
                    (AllUsable-Sends w v _ (recipients origin peers) f o'))
            | inr (shut, dropped) ↦
                let (w', done, s) = send_to_all-Sends env msg origin peers w ok o' in
                rw other (w', rw dropped done, rw (shut, writes) s)
          ]
    ]

-- If each recipient's connection is open, or closing or closed, and writes succeed, a broadcast returns
-- err_ok, writes the framed message once to each outgoing peer whose address is not the origin's and
-- whose connection is open, in the order of the list, and does nothing else outside; the store, the
-- peers, the shell and the buffers stay.
pub do_broadcast_msg_lem :
    (env : Env) (msg : Message) (origin : Str) (w : World)
    → WritesSucceed env
    → AllUsable w.clients (recipients origin w.net.peers_out)
    → (w' : World) × (do_broadcast_msg env msg origin w ≡ some (err_ok, w'))
      × Sends w w' (writes (opened w.clients) (framed msg) (recipients origin w.net.peers_out))
unfolding do_broadcast_msg
do_broadcast_msg_lem env msg origin w ok o =
    let (w', done, s) = send_to_all-Sends env msg origin w.net.peers_out w ok o in (w', rw done, s)
