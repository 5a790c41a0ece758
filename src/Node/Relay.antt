-- ===== src/Node/Relay.antt =====
-- A node that hears of a peer: from the bytes that arrive at an accepted connection to the bytes that
-- the node writes (NetClientBase::onRead to PeboNet::doBroadcastMsg).
use peerboot_cpp.Prelude.{
  ℕ, suc, ◌^◌, ◌<◌, ◌≡◌, refl, ap, sym, ◌∙◌, true, false, some, none, List, [], ◌∷◌, ◌++◌, arith,
  get_elem?, set, get_elem?-set_self, Bool-cases, lt→ltb, not, Option-cases, inl, inr, All-select,
}
use peerboot_cpp.Prelude.Int.{pos}
use peerboot_cpp.Text.{Str, str_eq}
use peerboot_cpp.Text.Cut.{Without}
use peerboot_cpp.Types.{PeerInfo}
use peerboot_cpp.Wire.{peer_line}
use peerboot_cpp.Wire.RoundTrip.{IsPrintable}
use peerboot_cpp.World.{World, Env, Client, Act, received, incoming, notified}
use peerboot_cpp.Message.{PeerUpdateMessage, update, message_text, peer_update_message}
use peerboot_cpp.PeboNet.{info, msg_from_pebo_peer}
use peerboot_cpp.PeboNet.Sends.{
  WritesSucceed, framed, writes, recipients, opened, opened-set, writes-cong, open_handle,
  open_handle-eq-some,
}
use peerboot_cpp.Store.{find_peer}
use peerboot_cpp.PeboNet.Updates.{is_known, peer_update_news}
use peerboot_cpp.PeboNet.Flood.{Knows, peer_update-Knows}
use peerboot_cpp.NetClient.{process}
use peerboot_cpp.NetClient.Frame.{core}
use peerboot_cpp.NetClient.Receive.{handle_line, append_received, on_read}
use peerboot_cpp.NetClient.Receive.Loop.{handle_line-Cores}
use peerboot_cpp.NetClient.Receive.Delivery.{append_received_message}
use peerboot_cpp.NetClient.Receive.Ready.{Ready, Ready-set, arrived}

-- The peer that a received update is about: its removal flag is not in the bytes.
abbrev pub greeting : PeerUpdateMessage → PeerInfo
greeting m = info (record m { is_removed = false })

-- Telling the client, and then each outgoing peer but those with the sender's address.
abbrev pub relayed : World → Str → PeerUpdateMessage → List Act
relayed w origin m =
    notified w.shell.peer (greeting m)
    ∷ writes (opened w.clients) (framed (update m)) (recipients origin w.net.peers_out)

-- A node that waits at an accepted connection for news of a peer.
pub record Waits (id h : ℕ) (w : World) (c : Client) (service endpoint : Str) : Type 0 where
  pub ready : Ready id h w
  pub here : get_elem? w.clients id ≡ some c
  pub accepts : c.direction ≡ incoming
  pub empty : c.receive_buffer ≡ []
  pub calls : w.shell.has_callback ≡ true
  pub news : Knows w service endpoint false → ⊥

incoming-done :
    (env : Env) (id : ℕ) (w : World) (c : Client)
    → core (get_elem? w.clients id) ≡ core (some c)
    → c.direction ≡ incoming
    → process env id w ≡ some (tt, w)
unfolding process
incoming-done env id w c e d = elim (Option-cases (get_elem? w.clients id)) [
  | inl gone ↦ cc (ap core gone, e)
  | inr (c', here) ↦
      (let dir : c'.direction ≡ c.direction =
          ap (λ o. elim o [ none ↦ c.direction | some x ↦ x.direction ]) (sym (ap core here) ∙ e) in
        rw (here, dir, d) refl)
]

pub framed-arrived :
    (env : Env) (m : PeerUpdateMessage) (v : World)
    → framed (update (arrived env m.service m.endpoint m.last_seen v)) ≡ framed (update m)
unfolding message_text
framed-arrived env m v = refl

-- A line about a peer
handle_line-relays :
    (env : Env) (id h : ℕ) (w : World) (c : Client) (m : PeerUpdateMessage)
    → WritesSucceed env
    → Waits id h w c m.service m.endpoint
    → (w' : World) × (handle_line env id (peer_line m.service m.endpoint m.last_seen) w
        ≡ some (tt, w'))
      × (w'.trace ≡ w.trace ++ relayed w c.node_addr m)
      × Knows w' m.service m.endpoint false
unfolding handle_line msg_from_pebo_peer peer_update_message
handle_line-relays env id h w c m ok r =
    let c' : Client = record c { state = received } in
    let v : World = record w { clients = set w.clients id c' } in
    let (live, on) = open_handle-eq-some c h (ap open_handle (sym r.here) ∙ r.ready.own) in
    let same : open_handle (some c') ≡ open_handle (some c) = ground (arith, live) in
    let m' = arrived env m.service m.endpoint m.last_seen v in
    let rv : Ready id h v = Ready-set id h w c c' r.here same (ground (arith, live, on)) r.ready in
    let (w', done, acts, _) =
      peer_update_news env id m' v c'
        (elim (Bool-cases (is_known false (find_peer w.net.store m.service m.endpoint))) [
          | inl k ↦ absurd (r.news k)
          | inr k ↦ k
        ])
        (get_elem?-set_self w.clients id c' c r.here) r.ready.notifies r.calls ok
        (All-select _ (λ p. not (str_eq p.node_addr c.node_addr)) w.net.peers_out rv.peers) in
    (
      w',
      rw (r.here) done,
      acts
          ∙ ap (λ b. w.trace ++ notified w.shell.peer (greeting m) ∷ b)
              (ap (λ x. writes (opened v.clients) x (recipients c.node_addr w.net.peers_out))
                  (framed-arrived env m v)
                ∙ writes-cong (opened v.clients) (opened w.clients) (framed (update m)) _
                    (λ j. opened-set w.clients id j c c' r.here same)),
      peer_update-Knows env id m' v w' done,
    )

handle_line-same_core :
    (env : Env) (id : ℕ) (w w' : World) (c : Client) (s e : Str) (t : ℕ)
    → get_elem? w.clients id ≡ some c
    → handle_line env id (peer_line s e t) w ≡ some (tt, w')
    → core (get_elem? w'.clients id) ≡ core (some c)
handle_line-same_core env id w w' c s e t here done =
    handle_line-Cores env id (peer_line s e t) w tt w' done id ∙ ap core here

-- The framed text of an update, read at an accepted connection with an empty buffer, comes to the handling
-- of one line.
pub on_read_line :
    (env : Env) (id hr n : ℕ) (w w' : World) (c : Client) (m : PeerUpdateMessage) (junk : Str)
    → get_elem? w.clients id ≡ some c
    → c.direction ≡ incoming
    → c.receive_buffer ≡ []
    → IsPrintable (update m)
    → m.last_seen < 2 ^ 31
    → Without 0 (message_text (update m))
    → handle_line env id (peer_line m.service m.endpoint m.last_seen) w ≡ some (tt, w')
    → on_read env id hr (pos (suc n)) (some (framed (update m) ++ 0 ∷ junk)) w ≡ some (tt, w')
unfolding on_read
on_read_line env id hr n w w' c m junk here accepts empty printable small zeros done =
    let read : append_received env id (some (framed (update m) ++ 0 ∷ junk)) w ≡ some (tt, w') =
      append_received_message env id w c (update m) junk here empty printable zeros
      ∙ rw (lt→ltb m.last_seen (2 ^ 31) small) done in
    ground (
      arith,
      read,
      incoming-done env id w' c
          (handle_line-same_core env id w w' c m.service m.endpoint m.last_seen here done) accepts,
    )

-- When the framed text of a printable update about a peer that a node does not have as present, with a
-- time below 2 ^ 31, arrives at an accepted connection with an empty buffer of a node in order whose
-- writes succeed, onRead succeeds: the client is called once with the peer, then the very bytes that
-- arrived are written once to each outgoing peer whose connection is open, but those with the sender's
-- address, in order, nothing else is done outside, and the node then has the peer. (The client has a callback, a zero
-- byte stands right behind the bytes that arrived in the read buffer, and the names have none.)
pub on_read_relays :
    (env : Env) (id h hr n : ℕ) (w : World) (c : Client) (m : PeerUpdateMessage) (junk : Str)
    → WritesSucceed env
    → Waits id h w c m.service m.endpoint
    → IsPrintable (update m)
    → m.last_seen < 2 ^ 31
    → Without 0 (message_text (update m))
    → (w' : World) × (on_read env id hr (pos (suc n)) (some (framed (update m) ++ 0 ∷ junk)) w
        ≡ some (tt, w'))
      × (w'.trace ≡ w.trace ++ relayed w c.node_addr m)
      × Knows w' m.service m.endpoint false
on_read_relays env id h hr n w c m junk ok r printable small zeros =
    let (w', done, acts, knows) = handle_line-relays env id h w c m ok r in
    (
      w',
      on_read_line env id hr n w w' c m junk r.here r.accepts r.empty printable small zeros done,
      acts,
      knows,
    )
