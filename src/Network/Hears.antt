-- ===== src/Network/Hears.antt =====
-- What a node in order does with an update that arrives at an accepted connection, news or not
-- (NetClientBase::onRead to PeboNet::doBroadcastMsg).
use mathlib.Core.List.{append_assoc, append-nil}
use peerboot_cpp.Prelude.{
  true, ℕ, suc, ◌^◌, ◌<◌, ◌≡◌, refl, ap, subst, sym, ◌∙◌, false, some, List, [], ◌∷◌, ◌++◌, arith,
  get_elem?, set, get_elem?-set_self, Bool-cases, Option-cases, inl, inr, if◌then◌else◌,
}
use peerboot_cpp.Prelude.Int.{pos}
use peerboot_cpp.Text.{Str}
use peerboot_cpp.Text.Cut.{Without}
use peerboot_cpp.Wire.{peer_line}
use peerboot_cpp.Wire.RoundTrip.{IsPrintable}
use peerboot_cpp.World.{World, Env, Client, Act, received, undefined, wild, incoming, notified}
use peerboot_cpp.Message.{PeerUpdateMessage, update, message_text, peer_update_message}
use peerboot_cpp.PeboNet.{info, msg_from_pebo_peer, peer_update_from_pebo_peer}
use peerboot_cpp.PeboNet.Sends.{
  WritesSucceed, framed, writes, recipients, opened, writes-cong, open_handle, open_handle-eq-some,
  opened-set,
}
use peerboot_cpp.PeboNet.Talks.{talks, talks_in, talks-set}
use peerboot_cpp.PeboNet.Broadcast.{do_broadcast_msg_lem}
use peerboot_cpp.Store.{find_peer}
use peerboot_cpp.PeboNet.Updates.{is_known, stored, told, forward-told, peer_update_cases}
use peerboot_cpp.PeboNet.Flood.{Knows, peer_update-Knows}
use peerboot_cpp.NetClient.Frame.{core}
use peerboot_cpp.NetClient.Receive.{handle_line, on_read}
use peerboot_cpp.NetClient.Receive.Ready.{arrived}
use peerboot_cpp.Node.Relay.{greeting, framed-arrived, on_read_line}
use peerboot_cpp.Network.View.{view, InOrder, Accepts, Sends-view, set-view}

-- The client is told of news, which then goes to every outgoing peer; nothing happens otherwise.
abbrev pub passed_on : World → PeerUpdateMessage → List Act
passed_on w m =
    if is_known false (find_peer w.net.store m.service m.endpoint)
    then []
    else notified w.shell.peer (greeting m)
      ∷ writes (opened w.clients) (framed (update m)) w.net.peers_out

-- An update is handled, the node knows the peer, and keeps its order.
pub record Heard (w w' : World) (m : PeerUpdateMessage) : Type 0 where
  pub trace : w'.trace ≡ w.trace ++ passed_on w m
  pub knows : Knows w' m.service m.endpoint false
  pub same : view w' ≡ view w
  pub talk : (j : ℕ) → talks (get_elem? w.clients j) ≡ true → talks (get_elem? w'.clients j) ≡ true

-- What the client of an open connection is, from its view.
Accepts-client :
    (w : World) (id : ℕ) (a : Accepts (view w) id)
    → (c : Client) × (get_elem? w.clients id ≡ some c)
      × (c.direction ≡ incoming)
      × (c.receive_buffer ≡ [])
      × (c.node_addr ≡ a.client.node_addr)
      × (open_handle (some c) ≡ some a.handle)
Accepts-client w id a = elim (Option-cases (get_elem? w.clients id)) [
  | inl gone ↦ absurd (cc (ap core gone, a.here))
  | inr (c, e) ↦
      let bare : Client = record c { state = undefined; stream = wild } in
      let p : some bare ≡ some a.client = sym (ap core e) ∙ a.here in
      let q : bare ≡ a.client = cc p in
      (
        c,
        e,
        ap (λ x. x.direction) q ∙ a.accepted,
        ap (λ x. x.receive_buffer) q ∙ a.empty,
        ap (λ x. x.node_addr) q,
        sym (ap open_handle e) ∙ a.own,
      )
]

module _ (env : Env) (id : ℕ) (ok : WritesSucceed env) where
  peer_update_hears :
      (m : PeerUpdateMessage) (w : World) (c : Client)
      → get_elem? w.clients id ≡ some c
      → InOrder (view w)
      → recipients c.node_addr w.net.peers_out ≡ w.net.peers_out
      → (w' : World) × (peer_update_from_pebo_peer env id
            (arrived env m.service m.endpoint m.last_seen w)
            w
          ≡ some (tt, w'))
        × Heard w w' m
  peer_update_hears m w c here r all =
      let n = arrived env m.service m.endpoint m.last_seen w in
      let v = stored env n w in
      elim (Bool-cases (is_known false (find_peer w.net.store m.service m.endpoint))) [
        | inl known ↦
            let done : peer_update_from_pebo_peer env id n w ≡ some (tt, v) =
              peer_update_cases env id n w ∙ rw known refl in
            (
              v,
              done,
              record {
                trace = sym (append-nil w.trace) ∙ ap (λ x. w.trace ++ x) (rw known refl);
                knows = peer_update-Knows env id n w v done;
                same = refl;
                talk = λ j e. e;
              },
            )
        | inr news ↦
            let (w', sent, s) =
              do_broadcast_msg_lem env (update n) c.node_addr (told (info n) v) ok
                (rw all r.peers) in
            let done : peer_update_from_pebo_peer env id n w ≡ some (tt, w') =
              peer_update_cases env id n w
              ∙ rw news (forward-told env id n v c here r.notifies r.calls ∙ rw sent) in
            (
              w',
              done,
              record {
                trace =
                    s.trace
                    ∙ append_assoc w.trace _ _
                    ∙ ap (λ x. w.trace ++ x) (rw (news, all, framed-arrived env m w) refl);
                knows = peer_update-Knows env id n w w' done;
                same = Sends-view (told (info n) v) w' _ s;
                talk = s.talk;
              },
            )
      ]

-- The line sets the connection's state first.
handle_line_hears :
    (env : Env) (id : ℕ) (m : PeerUpdateMessage) (w : World) (c : Client) (h : ℕ)
    → WritesSucceed env
    → get_elem? w.clients id ≡ some c
    → c.direction ≡ incoming
    → open_handle (some c) ≡ some h
    → InOrder (view w)
    → recipients c.node_addr w.net.peers_out ≡ w.net.peers_out
    → (w' : World) × (handle_line env id (peer_line m.service m.endpoint m.last_seen) w
        ≡ some (tt, w'))
      × Heard w w' m
unfolding handle_line msg_from_pebo_peer peer_update_message
handle_line_hears env id m w c h ok here incomes own r all =
    let (live, on) = open_handle-eq-some c h own in
    let c' : Client = record c { state = received } in
    let v : World = record w { clients = set w.clients id c' } in
    let alike : open_handle (some c') ≡ open_handle (some c) = ground (arith, live) in
    let same : view v ≡ view w = set-view w id c c' here refl alike (ground (arith, live, on)) in
    let (w', done, heard) =
      peer_update_hears env id ok m v c' (get_elem?-set_self w.clients id c' c here)
        (subst InOrder (sym same) r) all in
    (
      w',
      rw here done,
      record {
        trace =
            heard.trace
            ∙ ap
                (λ b.
                  w.trace
                  ++ (if is_known false (find_peer w.net.store m.service m.endpoint)
                      then []
                      else notified w.shell.peer (greeting m) ∷ b))
                (writes-cong (opened v.clients) (opened w.clients) (framed (update m))
                  w.net.peers_out (λ j. opened-set w.clients id j c c' here alike));
        knows = heard.knows;
        same = heard.same ∙ same;
        talk = λ j e. heard.talk j (
            talks-set w.clients id j c c' here
              (λ t. absurd (cc (ap (λ d. talks_in d c.state) incomes, t))) e);
      },
    )

-- When the framed text of a printable update, with a time below 2 ^ 31, arrives at an accepted
-- connection of a node in order whose writes succeed, onRead succeeds. If the node had the peer as present,
-- nothing is done outside; if not, the client is called once with the peer, and then the very bytes that
-- arrived are written once to each outgoing peer whose connection is open. The node has the peer
-- afterwards, and is in order as before. (The connection's buffer is empty; a zero byte stands right behind the bytes
-- that arrived in the read buffer, and the names have none.)
pub on_read_hears :
    (env : Env) (id hr n : ℕ) (w : World) (m : PeerUpdateMessage) (junk : Str)
    → WritesSucceed env
    → InOrder (view w)
    → Accepts (view w) id
    → IsPrintable (update m)
    → m.last_seen < 2 ^ 31
    → Without 0 (message_text (update m))
    → (w' : World) × (on_read env id hr (pos (suc n)) (some (framed (update m) ++ 0 ∷ junk)) w
        ≡ some (tt, w'))
      × Heard w w' m
on_read_hears env id hr n w m junk ok r a printable small zeros =
    let (c, here, incomes, empty, addr, own) = Accepts-client w id a in
    let all : recipients c.node_addr w.net.peers_out ≡ w.net.peers_out =
      rw addr (r.others id a.client a.here a.accepted) in
    let (w', done, heard) = handle_line_hears env id m w c a.handle ok here incomes own r all in
    (
      w',
      on_read_line env id hr n w w' c m junk here incomes empty printable small zeros done,
      heard,
    )
