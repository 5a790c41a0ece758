-- ===== src/NetClient/Receive/Outgoing.antt =====
-- What a message that arrives does to an outgoing connection (NetClientOut::process after
-- NetClientBase::onRead).
use peerboot_cpp.Prelude.{
  ℕ, suc, ◌^◌, ◌<◌, ◌≡◌, refl, ap, sym, ◌∙◌, not, false, Option, some, List, [], ◌∷◌, ◌++◌, arith,
  get_elem?, set, get_elem?-set_self, lt→ltb, All, All-map, All-select, Bool-cases, Option-cases,
  inl, inr,
}
use peerboot_cpp.Prelude.Int.{ℤ, pos}
use peerboot_cpp.Text.{Str, str_eq}
use peerboot_cpp.Text.Order.{str_eq_refl}
use peerboot_cpp.Text.Cut.{Without}
use peerboot_cpp.Wire.{peer_line}
use peerboot_cpp.Wire.RoundTrip.{IsPrintable}
use mathlib.Core.List.{append_assoc, append-nil}
use peerboot_cpp.World.{
  PeerWithId, Act, World, Env, Client, closing, received, null, handle, outgoing, closed_handle,
  notified,
}
use peerboot_cpp.Message.{Message, PeerUpdateMessage, update, message_text, peer_update_message}
use peerboot_cpp.Store.{find_peer}
use peerboot_cpp.Machine.{pure, continue}
use peerboot_cpp.PeboNet.{do_broadcast_msg, info, msg_from_pebo_peer, peer_update_from_pebo_peer}
use peerboot_cpp.PeboNet.Sends.{
  framed, writes, recipients, opened, open_handle, open_handle-eq-some, NotBy, WritesSucceed,
}
use peerboot_cpp.PeboNet.Broadcast.{do_broadcast_msg_lem}
use peerboot_cpp.Node.Linked.{IsLinked, link_of}
use peerboot_cpp.PeboNet.Updates.{is_known, stored, told, forward-told, peer_update_cases}
use peerboot_cpp.NetClient.{close, process, send_message}
use peerboot_cpp.NetClient.Receive.{handle_line, append_received, on_read}
use peerboot_cpp.NetClient.Receive.Delivery.{append_received_message}
use peerboot_cpp.NetClient.Receive.Ready.{Ready, Ready-set, arrived, forward_quiet}

-- The connection in another form
abbrev with_client : World → ℕ → Client → World
with_client w id c = record w { clients = set w.clients id c }

-- The connection is not among the recipients of what it received.
recipients-NotBy :
    (f : ℕ → Option ℕ) (bytes origin : Str) (id : ℕ) (peers : List PeerWithId)
    → All (λ p. p.peer ≡ id → p.node_addr ≡ origin) peers
    → NotBy id (writes f bytes (recipients origin peers))
recipients-NotBy f bytes origin id [] h = tt
recipients-NotBy f bytes origin id (p ∷ peers) h =
    let rest = recipients-NotBy f bytes origin id peers h.1 in
    elim (Bool-cases (str_eq p.node_addr origin)) [
      | inl same ↦ rw same rest
      | inr other ↦ elim (Option-cases (f p.peer)) [
        | inl shut ↦ rw (other, shut, writes) rest
        | inr (h', e) ↦
            rw (other, e, writes)
              ((λ q. cc (ap (str_eq p.node_addr) (h.0 q), str_eq_refl p.node_addr, other)), rest)
      ]
    ]

own_address :
    (w : World) (id : ℕ) (c : Client)
    → get_elem? w.clients id ≡ some c
    → IsLinked w
    → All (λ p. p.peer ≡ id → p.node_addr ≡ c.node_addr) w.net.peers_out
own_address w id c here l =
    All-map _ _ w.net.peers_out
      (λ p linked q. cc (ap (λ j. link_of (get_elem? w.clients j)) q, ap link_of here, linked))
      l.outs

-- The close after a line
process_received :
    (env : Env) (id h : ℕ) (host : Str) (port : ℤ) (w : World) (c : Client)
    → get_elem? w.clients id ≡ some c
    → c.direction ≡ outgoing host port
    → c.state ≡ received
    → c.stream ≡ handle h
    → env.uv_is_closing w.trace h ≡ false
    → process env id w
      ≡ some (
        tt,
        record (with_client w id (record c { state = closing; stream = null })) {
          trace = w.trace ++ closed_handle h ∷ [];
        },
      )
unfolding process close
process_received env id h host port w c here dir state stream alive =
    ground (arith, here, dir, state, stream, alive)

send_dropped :
    (env : Env) (id : ℕ) (msg : Message) (w : World) (c : Client)
    → get_elem? w.clients id ≡ some c
    → c.state ≡ closing
    → send_message env id msg w ≡ some (pos 0, w)
unfolding send_message
send_dropped env id msg w c here state = ground (arith, here, state)

module _ (env : Env) (id h : ℕ) (ok : WritesSucceed env) (m : PeerUpdateMessage) (c : Client) where
  -- A broadcast of what was received at the connection leaves it as it is.
  broadcast_keeps_own :
      (w : World)
      → Ready id h w
      → get_elem? w.clients id ≡ some c
      → All (λ p. p.peer ≡ id → p.node_addr ≡ c.node_addr) w.net.peers_out
      → (w' : World) × (acts : List Act) × (continue
            (do_broadcast_msg env (update m) c.node_addr w)
            (λ _. pure tt)
          ≡ some (tt, w'))
        × (w'.trace ≡ w.trace ++ acts)
        × (get_elem? w'.clients id ≡ some c)
  broadcast_keeps_own w r here addr =
      let (w', sent, s) =
        do_broadcast_msg_lem env (update m) c.node_addr w ok
          (All-select _ (λ p. not (str_eq p.node_addr c.node_addr)) w.net.peers_out r.peers) in
      (
        w',
        writes (opened w.clients) (framed (update m)) (recipients c.node_addr w.net.peers_out),
        ap (λ o. continue o (λ _. pure tt)) sent,
        s.trace,
        s.others id (
              recipients-NotBy (opened w.clients) (framed (update m)) c.node_addr id w.net.peers_out
                addr)
            ∙ here,
      )

  peer_update_keeps_own :
      (w : World)
      → Ready id h w
      → get_elem? w.clients id ≡ some c
      → All (λ p. p.peer ≡ id → p.node_addr ≡ c.node_addr) w.net.peers_out
      → (w' : World) × (acts : List Act) × (peer_update_from_pebo_peer env id m w ≡ some (tt, w'))
        × (w'.trace ≡ w.trace ++ acts)
        × (get_elem? w'.clients id ≡ some c)
  peer_update_keeps_own w r here addr =
      let v = stored env m w in
      elim (Bool-cases (is_known m.is_removed (find_peer w.net.store m.service m.endpoint))) [
        | inl known ↦
            (v, [], peer_update_cases env id m w ∙ rw known refl, sym (append-nil w.trace), here)
        | inr news ↦ elim (Bool-cases w.shell.has_callback) [
          | inl calls ↦
              let u = told (info m) v in
              let (w', acts, done, trace, kept) =
                broadcast_keeps_own u
                  (record { own = r.own; peers = r.peers; notifies = r.notifies }) here addr in
              (
                w',
                notified w.shell.peer (info m) ∷ acts,
                peer_update_cases env id m w
                    ∙ rw news (forward-told env id m v c here r.notifies calls ∙ done),
                trace ∙ append_assoc w.trace _ acts,
                kept,
              )
          | inr quiet ↦
              let (w', acts, done, trace, kept) =
                broadcast_keeps_own v
                  (record { own = r.own; peers = r.peers; notifies = r.notifies }) here addr in
              (
                w',
                acts,
                peer_update_cases env id m w
                    ∙ rw news (forward_quiet env id h ok m v c here r.notifies quiet ∙ done),
                trace,
                kept,
              )
        ]
      ]

-- A line about a peer leaves the connection in the state `received`.
peer_line_received :
    (env : Env) (id h : ℕ) (w : World) (c : Client) (s e : Str) (t : ℕ)
    → WritesSucceed env
    → Ready id h w
    → get_elem? w.clients id ≡ some c
    → IsLinked w
    → (w' : World) × (acts : List Act) × (handle_line env id (peer_line s e t) w ≡ some (tt, w'))
      × (w'.trace ≡ w.trace ++ acts)
      × (get_elem? w'.clients id ≡ some (record c { state = received }))
unfolding handle_line msg_from_pebo_peer peer_update_message
peer_line_received env id h w c s e t ok r here linked =
    let (live, on) = open_handle-eq-some c h (ap open_handle (sym here) ∙ r.own) in
    let c₁ : Client = record c { state = received } in
    let v = with_client w id c₁ in
    let (w', acts, done, trace, kept) =
      peer_update_keeps_own env id h ok (arrived env s e t v) c₁ v
        (Ready-set id h w c c₁ here (ground (arith, live)) (ground (arith, live, on)) r)
        (get_elem?-set_self w.clients id c₁ c here) (own_address w id c here linked) in
    (w', acts, rw here done, trace, kept)

-- When the framed text of a printable update arrives at an outgoing connection with an empty buffer, of
-- a node in order whose writes succeed, onRead succeeds, and its last act is to close the connection,
-- whether or not the update was news; and from then on each message for this connection is dropped,
-- while sendMessage reports success. (The time is below 2 ^ 31, a zero byte stands right behind the bytes that
-- arrived in the read buffer and the names have none, libuv is
-- not closing the handle already, and the node's objects are linked as they are in every world that a
-- process reaches.)
pub on_read_outgoing_closes :
    (env : Env) (id h hr n : ℕ) (host : Str) (port : ℤ) (w : World) (c : Client)
    (m : PeerUpdateMessage) (junk : Str)
    → WritesSucceed env
    → ((t : List Act) → env.uv_is_closing t h ≡ false)
    → Ready id h w
    → IsLinked w
    → get_elem? w.clients id ≡ some c
    → c.direction ≡ outgoing host port
    → c.receive_buffer ≡ []
    → IsPrintable (update m)
    → m.last_seen < 2 ^ 31
    → Without 0 (message_text (update m))
    → (w' : World) × (acts : List Act) × (on_read env id hr
          (pos (suc n))
          (some (framed (update m) ++ 0 ∷ junk))
          w
        ≡ some (tt, w'))
      × (w'.trace ≡ (w.trace ++ acts) ++ closed_handle h ∷ [])
      × ((env' : Env) (msg : Message) → send_message env' id msg w' ≡ some (pos 0, w'))
unfolding on_read
on_read_outgoing_closes env id h hr n host port w c m junk ok alive r linked here dir empty
      printable small zeros =
    let (u, acts, done, trace, kept) =
      peer_line_received env id h w c m.service m.endpoint m.last_seen ok r here linked in
    let c₁ : Client = record c { state = received } in
    let c₂ : Client = record c₁ { state = closing; stream = null } in
    let w' : World = record (with_client u id c₂) { trace = u.trace ++ closed_handle h ∷ [] } in
    let (live, on) = open_handle-eq-some c h (ap open_handle (sym here) ∙ r.own) in
    let read : append_received env id (some (framed (update m) ++ 0 ∷ junk)) w ≡ some (tt, u) =
      append_received_message env id w c (update m) junk here empty printable zeros
      ∙ rw (lt→ltb m.last_seen (2 ^ 31) small) done in
    (
      w',
      acts,
      ground
          (arith, read, process_received env id h host port u c₁ kept dir refl on (alive u.trace)),
      ap (λ t. t ++ closed_handle h ∷ []) trace,
      λ env' msg. send_dropped env' id msg w' c₂ (get_elem?-set_self u.clients id c₂ c₁ kept) refl,
    )
