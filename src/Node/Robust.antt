-- ===== src/Node/Robust.antt =====
-- News that arrives at a node whose writes may fail (NetClientBase::onRead to PeboNet::doBroadcastMsg).
use mathlib.Core.List.{Memᴰ, append_assoc}
use peerboot_cpp.Prelude.{
  ℕ, suc, ◌^◌, ◌<◌, ◌≡◌, ap, sym, subst, ◌∙◌, true, false, some, List, [], ◌∷◌, ◌++◌, arith,
  get_elem?, set, get_elem?-set_self, Bool-cases, not, inl, inr, All-select,
}
use peerboot_cpp.Prelude.Int.{pos}
use peerboot_cpp.Text.{Str, str_eq}
use peerboot_cpp.Text.Cut.{Without}
use peerboot_cpp.Wire.{peer_line}
use peerboot_cpp.Wire.RoundTrip.{IsPrintable}
use peerboot_cpp.World.{World, Env, Client, PeerWithId, Act, received, notified, wrote}
use peerboot_cpp.Message.{PeerUpdateMessage, update, message_text, peer_update_message}
use peerboot_cpp.PeboNet.{info, msg_from_pebo_peer, peer_update_from_pebo_peer}
use peerboot_cpp.PeboNet.Sends.{
  AllUsable, framed, recipients, opened, opened-set, open_handle, open_handle-eq-some,
}
use peerboot_cpp.PeboNet.Attempts.{Attempts, do_broadcast_msg-Attempts}
use peerboot_cpp.Store.{find_peer}
use peerboot_cpp.PeboNet.Updates.{is_known, stored, told, forward-told, peer_update_cases}
use peerboot_cpp.PeboNet.Flood.{Knows, peer_update-Knows}
use peerboot_cpp.NetClient.Receive.{handle_line, on_read}
use peerboot_cpp.NetClient.Receive.Ready.{Ready, Ready-set, arrived}
use peerboot_cpp.Node.Relay.{Waits, greeting, framed-arrived, on_read_line}

peer_update_attempts :
    (env : Env) (id : ℕ) (m : PeerUpdateMessage) (w : World) (c : Client)
    → is_known m.is_removed (find_peer w.net.store m.service m.endpoint) ≡ false
    → get_elem? w.clients id ≡ some c
    → w.net.has_notify_cb ≡ true
    → w.shell.has_callback ≡ true
    → AllUsable w.clients (recipients c.node_addr w.net.peers_out)
    → (w' : World) × (peer_update_from_pebo_peer env id m w ≡ some (tt, w'))
      × Attempts
          (told (info m) (stored env m w))
          w'
          (framed (update m))
          (recipients c.node_addr w.net.peers_out)
peer_update_attempts env id m w c news here cb calls o =
    let v = stored env m w in
    let (w', sent, a) = do_broadcast_msg-Attempts env (update m) c.node_addr (told (info m) v) o in
    (
      w',
      peer_update_cases env id m w ∙ rw news (forward-told env id m v c here cb calls ∙ rw sent),
      a,
    )

-- What happens outside: the client is told first, and among the acts that follow is a write to the peer.
pub record Relays (w w' : World) (m : PeerUpdateMessage) (p : PeerWithId) (h : ℕ) : Type 0 where
  pub acts : List Act
  pub trace : w'.trace ≡ w.trace ++ notified w.shell.peer (greeting m) ∷ acts
  pub written : Memᴰ (wrote p.peer h (framed (update m))) acts

handle_line_attempts :
    (env : Env) (id h : ℕ) (w : World) (c : Client) (m : PeerUpdateMessage) (p : PeerWithId) (k : ℕ)
    → Waits id h w c m.service m.endpoint
    → Memᴰ p (recipients c.node_addr w.net.peers_out)
    → opened w.clients p.peer ≡ some k
    → (w' : World) × (handle_line env id (peer_line m.service m.endpoint m.last_seen) w
        ≡ some (tt, w'))
      × Relays w w' m p k
      × Knows w' m.service m.endpoint false
unfolding handle_line msg_from_pebo_peer peer_update_message
handle_line_attempts env id h w c m p k r listed own =
    let c' : Client = record c { state = received } in
    let v : World = record w { clients = set w.clients id c' } in
    let (live, on) = open_handle-eq-some c h (ap open_handle (sym r.here) ∙ r.ready.own) in
    let same : open_handle (some c') ≡ open_handle (some c) = ground (arith, live) in
    let n = arrived env m.service m.endpoint m.last_seen v in
    let rv : Ready id h v = Ready-set id h w c c' r.here same (ground (arith, live, on)) r.ready in
    let (w', done, a) =
      peer_update_attempts env id n v c'
        (elim (Bool-cases (is_known false (find_peer w.net.store m.service m.endpoint))) [
          | inl k ↦ absurd (r.news k)
          | inr k ↦ k
        ])
        (get_elem?-set_self w.clients id c' c r.here) r.ready.notifies r.calls
        (All-select _ (λ q. not (str_eq q.node_addr c.node_addr)) w.net.peers_out rv.peers) in
    (
      w',
      rw (r.here) done,
      record {
        acts = a.acts;
        trace = a.trace ∙ append_assoc w.trace (notified w.shell.peer (greeting m) ∷ []) a.acts;
        written =
            subst (λ b. Memᴰ (wrote p.peer k b) a.acts) (framed-arrived env m v)
              (a.tried p k listed (opened-set w.clients id p.peer c c' r.here same ∙ own));
      },
      peer_update-Knows env id n v w' done,
    )

-- When the framed text of a printable update about a peer that a node does not have as present, with a
-- time below 2 ^ 31, arrives at an accepted connection with an empty buffer of a node in order, onRead
-- succeeds whatever libuv answers to the node's writes: the client is called with the peer, then the very
-- bytes that arrived are written to any outgoing peer whose connection is open, unless it has the
-- sender's address, also if the writes to others fail; and the node has the peer afterwards. (The client
-- has a callback, a zero byte stands right behind the bytes that arrived in the read buffer, and the names
-- have none.)
pub on_read_attempts :
    (env : Env) (id h hr n : ℕ) (w : World) (c : Client) (m : PeerUpdateMessage) (junk : Str)
    (p : PeerWithId) (k : ℕ)
    → Waits id h w c m.service m.endpoint
    → Memᴰ p (recipients c.node_addr w.net.peers_out)
    → opened w.clients p.peer ≡ some k
    → IsPrintable (update m)
    → m.last_seen < 2 ^ 31
    → Without 0 (message_text (update m))
    → (w' : World) × (on_read env id hr (pos (suc n)) (some (framed (update m) ++ 0 ∷ junk)) w
        ≡ some (tt, w'))
      × Relays w w' m p k
      × Knows w' m.service m.endpoint false
on_read_attempts env id h hr n w c m junk p k r listed own printable small zeros =
    let (w', done, relays, knows) = handle_line_attempts env id h w c m p k r listed own in
    (
      w',
      on_read_line env id hr n w w' c m junk r.here r.accepts r.empty printable small zeros done,
      relays,
      knows,
    )
