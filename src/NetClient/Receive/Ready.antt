-- ===== src/NetClient/Receive/Ready.antt =====
-- A node in order, and what a line that arrives does to it.
use peerboot_cpp.Prelude.{
  ℕ, ◌≡◌, refl, ap, sym, subst, ◌∙◌, true, false, not, Option, none, some, List, ◌∷◌, arith,
  get_elem?, set, get_elem?-set_self, Option-cases, Bool-cases, inl, inr, All-select, All-map,
}
use peerboot_cpp.Text.{Str, str_eq}
use peerboot_cpp.Store
use peerboot_cpp.Store.{StoredPeer, find_peer}
use peerboot_cpp.TimeStamp.{now}
use peerboot_cpp.Wire.{Line, too_few_tokens, wrong_prefix, unparseable, peer_line, query_line}
use peerboot_cpp.World.{World, Env, Client, PeerWithId, Act, received, null}
use peerboot_cpp.Machine.{pure, continue}
use peerboot_cpp.Message.{PeerUpdateMessage, update, created, peer_update_message, query_message}
use peerboot_cpp.PeboNet.{
  info, forward, peer_update_from_pebo_peer, do_broadcast_msg, do_client_callback,
  msg_from_pebo_peer, query_from_pebo_peer, do_query, send_answers,
}
use peerboot_cpp.PeboNet.Sends.{
  WritesSucceed, AllUsable, opened, open_handle, opened-set, open_handle-eq-some, Sends, usable,
  is_usable, usable-set, AllUsable-Sends,
}
use peerboot_cpp.PeboNet.Broadcast.{do_broadcast_msg_lem}
use peerboot_cpp.PeboNet.Updates.{is_known, stored, told, forward-told, peer_update_cases}
use peerboot_cpp.PeboNet.Answers.{do_query_lem}
use peerboot_cpp.NetClient.{send_message}
use peerboot_cpp.NetClient.Receive.{handle_line}

-- A node in order: the connection is open on the handle `h`, the outgoing peers'
-- connections are open, or closing or closed, and the network has its callback.
pub record Ready (id h : ℕ) (w : World) : Type 0 where
  pub own : opened w.clients id ≡ some h
  pub peers : AllUsable w.clients w.net.peers_out
  pub notifies : w.net.has_notify_cb ≡ true

-- A result that is a success in a node in order.
abbrev pub Goes : ℕ → ℕ → Option (Unit {0} × World) → Type 0
Goes id h o = (w' : World) × (o ≡ some (tt, w')) × Ready id h w'

Ready-Sends :
    (id h : ℕ) (w v : World) (acts : List Act) → Sends w v acts → Ready id h w → Ready id h v
Ready-Sends id h w v acts s r = record {
  own = s.opens id ∙ r.own;
  peers =
      subst (λ n. AllUsable v.clients n.peers_out) (sym s.frame.net)
        (AllUsable-Sends w v acts w.net.peers_out s r.peers);
  notifies = ap (λ n. n.has_notify_cb) s.frame.net ∙ r.notifies;
}

AllUsable-cong :
    (cs ds : List Client) (peers : List PeerWithId)
    → ((j : ℕ) → usable ds j ≡ usable cs j)
    → AllUsable cs peers
    → AllUsable ds peers
AllUsable-cong cs ds peers f = All-map _ _ peers (λ p e. f p.peer ∙ e)

-- Changing an open connection's state to one that is open, or its buffer, keeps the order.
pub Ready-set :
    (id h : ℕ) (w : World) (c c' : Client)
    → get_elem? w.clients id ≡ some c
    → open_handle (some c') ≡ open_handle (some c)
    → is_usable (some c') ≡ is_usable (some c)
    → Ready id h w
    → Ready id h (record w { clients = set w.clients id c' })
Ready-set id h w c c' e o u r = record {
  own = opened-set w.clients id id c c' e o ∙ r.own;
  peers =
      AllUsable-cong w.clients (set w.clients id c') w.net.peers_out
        (λ j. usable-set w.clients id j c c' e u) r.peers;
  notifies = r.notifies;
}

-- The connection of a node in order.
pub own_client :
    (id h : ℕ) (w : World)
    → Ready id h w
    → (c : Client) × (get_elem? w.clients id ≡ some c) × (open_handle (some c) ≡ some h)
own_client id h w r = elim (Option-cases (get_elem? w.clients id)) [
  | inl e ↦ absurd (cc (ap open_handle e, r.own))
  | inr (c, e) ↦ (c, e, rw e at r.own)
]

-- The message that is made of a received line.
abbrev pub arrived : Env → Str → Str → ℕ → World → PeerUpdateMessage
arrived env s e t v = record {
  created_time = created (now (env.seconds v.trace)) 0;
  service = s;
  endpoint = e;
  last_seen = t;
  is_removed = false;
}

module _ (env : Env) (id h : ℕ) (ok : WritesSucceed env) where
  pub forward_quiet :
      (m : PeerUpdateMessage) (w : World) (c : Client)
      → get_elem? w.clients id ≡ some c
      → w.net.has_notify_cb ≡ true
      → w.shell.has_callback ≡ false
      → forward env id m w ≡ continue (do_broadcast_msg env (update m) c.node_addr w) (λ _. pure tt)
  unfolding forward do_client_callback
  forward_quiet m w c here cb calls = ground (arith, here, cb, calls)

  broadcast-Goes :
      (m : PeerUpdateMessage) (origin : Str) (w : World)
      → Ready id h w
      → Goes id h (continue (do_broadcast_msg env (update m) origin w) (λ _. pure tt))
  broadcast-Goes m origin w r =
      let (w', sent, s) =
        do_broadcast_msg_lem env (update m) origin w ok
          (All-select _ (λ p. not (str_eq p.node_addr origin)) w.net.peers_out r.peers) in
      (w', ap (λ o. continue o (λ _. pure tt)) sent, Ready-Sends id h w w' _ s r)

  forward-Goes : (m : PeerUpdateMessage) (w : World) → Ready id h w → Goes id h (forward env id m w)
  forward-Goes m w r =
      let (c, e, o) = own_client id h w r in
      elim (Bool-cases w.shell.has_callback) [
        | inl calls ↦
            let (w', done, r') =
              broadcast-Goes m c.node_addr (told (info m) w)
                (record { own = r.own; peers = r.peers; notifies = r.notifies }) in
            (w', forward-told env id m w c e r.notifies calls ∙ done, r')
        | inr quiet ↦
            let (w', done, r') = broadcast-Goes m c.node_addr w r in
            (w', forward_quiet m w c e r.notifies quiet ∙ done, r')
      ]

  peer_update-Goes :
      (m : PeerUpdateMessage) (w : World)
      → Ready id h w
      → Goes id h (peer_update_from_pebo_peer env id m w)
  peer_update-Goes m w r =
      let v = stored env m w in
      let r' : Ready id h v = record { own = r.own; peers = r.peers; notifies = r.notifies } in
      elim (Bool-cases (is_known m.is_removed (find_peer w.net.store m.service m.endpoint))) [
        | inl known ↦ (v, peer_update_cases env id m w ∙ rw known, r')
        | inr news ↦
            let (w', done, r'') = forward-Goes m v r' in
            (w', peer_update_cases env id m w ∙ rw news done, r'')
      ]

  query-Goes :
      (service : Str) (w : World)
      → Ready id h w
      → Goes id h (continue (do_query env id service w) (λ _. pure tt))
  query-Goes service w r =
      let (w', sent, s) = do_query_lem env id h service w ok r.own in
      (w', ap (λ o. continue o (λ _. pure tt)) sent, Ready-Sends id h w w' _ s r)

  -- A line is handled; here the state is set first.
  pub handle_line-Goes : (l : Line) (w : World) → Ready id h w → Goes id h (handle_line env id l w)
  unfolding handle_line msg_from_pebo_peer query_from_pebo_peer peer_update_message query_message
  handle_line-Goes (peer_line s e t) w r =
      let (c, here, o) = own_client id h w r in
      let (live, on) = open_handle-eq-some c h o in
      let c' : Client = record c { state = received } in
      let v : World = record w { clients = set w.clients id c' } in
      let (w', done, r') =
        peer_update-Goes (arrived env s e t v) v
          (Ready-set id h w c c' here (ground (arith, live)) (ground (arith, live, on)) r) in
      (w', rw here done, r')
  handle_line-Goes (query_line s) w r =
      let (c, here, o) = own_client id h w r in
      let (live, on) = open_handle-eq-some c h o in
      let c' : Client = record c { state = received } in
      let v : World = record w { clients = set w.clients id c' } in
      let (w', done, r') =
        query-Goes s v
          (Ready-set id h w c c' here (ground (arith, live)) (ground (arith, live, on)) r) in
      (w', rw here done, r')
  handle_line-Goes too_few_tokens w r = (w, refl, r)
  handle_line-Goes wrong_prefix w r = (w, refl, r)
  handle_line-Goes unparseable w r = (w, refl, r)

-- On a connection that was closed, so that its stream is null, the next query line that the store has
-- an answer for is a fault: handling the line sets the state that would have kept the answer back.
query_line_closed :
    (env : Env) (id : ℕ) (service : Str) (w : World) (c : Client) (p : StoredPeer)
    (rest : List StoredPeer)
    → get_elem? w.clients id ≡ some c
    → c.stream ≡ null
    → Store.query w.net.store service ≡ p ∷ rest
    → handle_line env id (query_line service) w ≡ none
unfolding handle_line msg_from_pebo_peer query_from_pebo_peer query_message do_query send_answers
    send_message
query_line_closed env id service w c p rest here closed found =
    rw (here, found)
      (ground
        (arith, get_elem?-set_self w.clients id (record c { state = received }) c here, closed))
