-- ===== src/Node/Path.antt =====
-- How an announcement travels along a path of nodes: each reads the bytes that the one before it wrote
-- (PeboNet::broadcast, NetClientBase::onRead, PeboNet::doBroadcastMsg).
use peerboot_cpp.Prelude.{
  false, Option-cases, inl, inr, ℕ, zero, suc, ◌^◌, ◌<◌, ◌≡◌, refl, not, Option, some, List, [],
  ◌∷◌, ◌++◌, arith, get_elem?, All-select,
}
use peerboot_cpp.Prelude.Int.{pos}
use peerboot_cpp.Text.{Str, str_eq}
use peerboot_cpp.Text.Cut.{Without}
use peerboot_cpp.TimeStamp.{now}
use peerboot_cpp.Types.{PeerInfo, err_ok}
use peerboot_cpp.Wire.RoundTrip.{IsPrintable}
use peerboot_cpp.World.{World, Env, Client, Act, PeerWithId, notified, wrote}
use peerboot_cpp.Message.{PeerUpdateMessage, update, created, message_text, peer_update_message}
use peerboot_cpp.PeboNet.{broadcast, local_node_addr}
use peerboot_cpp.PeboNet.Sends.{WritesSucceed, AllUsable, framed, writes, recipients, opened}
use peerboot_cpp.PeboNet.Broadcast.{do_broadcast_msg_lem}
use peerboot_cpp.PeboNet.Flood.{Knows}
use peerboot_cpp.NetClient.Receive.{on_read}
use peerboot_cpp.Node.Relay.{Waits, greeting, relayed, on_read_relays}

abbrev pub Occurs : {A : Type 0} → A → List A → Type 0
Occurs x xs = (i : ℕ) × (get_elem? xs i ≡ some x)

later-Occurs : {A : Type 0} (x y : A) (xs : List A) → Occurs x xs → Occurs x (y ∷ xs)
later-Occurs x y xs (i, h) = (suc i, h)

-- What is written to one of several peers is among what is written to them.
writes-Occurs :
    (f : ℕ → Option ℕ) (bytes : Str) (p : PeerWithId) (h i : ℕ) (peers : List PeerWithId)
    → get_elem? peers i ≡ some p
    → f p.peer ≡ some h
    → Occurs (wrote p.peer h bytes) (writes f bytes peers)
writes-Occurs f bytes p h i [] here e = absurd (cc here)
writes-Occurs f bytes p h zero (q ∷ peers) here e = (0, ground (arith, here, e))
writes-Occurs f bytes p h (suc i) (q ∷ peers) here e =
    let rest = writes-Occurs f bytes p h i peers here e in
    elim (Option-cases (f q.peer)) [
      | inl none_open ↦ rw (none_open, writes) rest
      | inr (h', e') ↦
          rw (e', writes) (later-Occurs _ (wrote q.peer h' bytes) (writes f bytes peers) rest)
    ]

-- A node writes to `next`, over the handle `next_handle`, what comes from the address `origin`.
pub record WritesTo (origin : Str) (w : World) (next : PeerWithId) (next_handle : ℕ) : Type 0 where
  pub listed : Occurs next (recipients origin w.net.peers_out)
  pub opens : opened w.clients next.peer ≡ some next_handle

-- A node on the path, with its surroundings: the accepted connection at which it waits for news of the
-- peer, and the outgoing one that leads to the next node. `junk` is what the read buffer holds behind
-- the zero byte.
pub record Stop (service endpoint : Str) : Type 0 where
  pub env : Env
  pub world : World
  pub id : ℕ
  pub handle : ℕ
  pub client : Client
  pub read_handle : ℕ
  pub nread : ℕ
  pub junk : Str
  pub next : PeerWithId
  pub next_handle : ℕ
  pub succeeds : WritesSucceed env
  pub waits : Waits id handle world client service endpoint
  pub leads : WritesTo client.node_addr world next next_handle

-- Each node on the path that is given the bytes that the one before wrote to it reads them without
-- failing, tells its client of the peer, has the peer afterwards, and writes to the next node.
abbrev pub Spreads : (m : PeerUpdateMessage) → Str → List (Stop m.service m.endpoint) → Type 0
Spreads m bytes [] = Unit
Spreads m bytes (s ∷ stops) =
    (w' : World) × (acts : List Act) × (sent : Str) × (on_read s.env s.id s.read_handle
        (pos (suc s.nread)) (some (bytes ++ 0 ∷ s.junk)) s.world
      ≡ some (tt, w'))
    × (w'.trace ≡ s.world.trace ++ acts)
    × Occurs (notified s.world.shell.peer (greeting m)) acts
    × Knows w' m.service m.endpoint false
    × Occurs (wrote s.next.peer s.next_handle sent) acts
    × Spreads m sent stops

framed-Spreads :
    (m : PeerUpdateMessage) (stops : List (Stop m.service m.endpoint))
    → IsPrintable (update m)
    → m.last_seen < 2 ^ 31
    → Without 0 (message_text (update m))
    → Spreads m (framed (update m)) stops
framed-Spreads m [] printable small zeros = tt
framed-Spreads m (s ∷ stops) printable small zeros =
    let (w', done, trace, knows) =
      on_read_relays s.env s.id s.handle s.read_handle s.nread s.world s.client m s.junk s.succeeds
        s.waits printable small zeros in
    let (i, listed) = s.leads.listed in
    (
      w',
      relayed s.world s.client.node_addr m,
      framed (update m),
      done,
      trace,
      (0, refl),
      knows,
      later-Occurs (wrote s.next.peer s.next_handle (framed (update m)))
          (notified s.world.shell.peer (greeting m)) _
          (writes-Occurs (opened s.world.clients) (framed (update m)) s.next s.next_handle i
            (recipients s.client.node_addr s.world.net.peers_out) listed s.leads.opens),
      framed-Spreads m stops printable small zeros,
    )

-- The message by which a node announces a peer
abbrev pub announced : Env → World → PeerInfo → PeerUpdateMessage
announced env w peer = record {
  created_time = created (now (env.seconds w.trace)) 0;
  service = peer.service;
  endpoint = peer.endpoint;
  last_seen = peer.last_seen;
  is_removed = peer.is_removed;
}

-- The announcement of a peer, with printable names without zero bytes and a time below 2 ^ 31, reaches
-- every node of a path, however long: the broadcast of the first node succeeds and writes bytes to the
-- first of the path; and each of these, given the bytes that the one before wrote to it, at an accepted
-- connection where it waits for news, reads them without failing, tells its client of the peer, has it
-- in its store afterwards, and writes to the next. (Writes succeed, outgoing connections are open, or
-- closing or closed, no node of the path has the peer as present yet, and in each read
-- a zero byte stands right behind the bytes that arrived.)
pub broadcast-Spreads :
    (env : Env) (w : World) (peer : PeerInfo) (next : PeerWithId) (next_handle : ℕ)
    (stops : List (Stop peer.service peer.endpoint))
    → WritesSucceed env
    → AllUsable w.clients w.net.peers_out
    → WritesTo local_node_addr w next next_handle
    → IsPrintable (update (announced env w peer))
    → peer.last_seen < 2 ^ 31
    → Without 0 (message_text (update (announced env w peer)))
    → (w' : World) × (acts : List Act) × (sent : Str) × (broadcast env peer w ≡ some (err_ok, w'))
      × (w'.trace ≡ w.trace ++ acts)
      × Occurs (wrote next.peer next_handle sent) acts
      × Spreads (announced env w peer) sent stops
unfolding broadcast peer_update_message
broadcast-Spreads env w peer next next_handle stops ok all leads printable small zeros =
    let m = announced env w peer in
    let (i, listed) = leads.listed in
    let (w', done, s) =
      do_broadcast_msg_lem env (update m) local_node_addr w ok
        (All-select _ (λ p. not (str_eq p.node_addr local_node_addr)) w.net.peers_out all) in
    (
      w',
      writes (opened w.clients) (framed (update m)) (recipients local_node_addr w.net.peers_out),
      framed (update m),
      done,
      s.trace,
      writes-Occurs (opened w.clients) (framed (update m)) next next_handle i
          (recipients local_node_addr w.net.peers_out) listed leads.opens,
      framed-Spreads m stops printable small zeros,
    )
