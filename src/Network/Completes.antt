-- ===== src/Network/Completes.antt =====
-- The completion of writes in a network (NetClientBase::onWrite), and what an announcement depends on.
use mathlib.Core.List.{append-nil}
use peerboot_cpp.Prelude.{
  ℕ, ◌≡◌, refl, ap, ap₂, sym, subst, ◌∙◌, true, some, List, [], ◌∷◌, arith, get_elem?, set, map,
  Option-cases, inl, inr, All-set, All-get_elem?, map-set, set-get_elem?, get_elem?-map,
  drop-append,
}
use peerboot_cpp.Prelude.Int.{pos}
use peerboot_cpp.World.{
  World, Env, Client, PeerWithId, Direction, State, incoming, outgoing, receiving, read_started,
}
use peerboot_cpp.Message.{PeerUpdateMessage}
use peerboot_cpp.NetClient.{on_write}
use peerboot_cpp.NetClient.Completion.{ReadsStart, reading, on_write_reads}
use peerboot_cpp.PeboNet.Sends.{opened, open_handle, opened-client, open_handle-eq-some}
use peerboot_cpp.PeboNet.Talks.{talks, talks_in, talks-set}
use peerboot_cpp.Network.{Net, Wiring, finish, since}
use peerboot_cpp.Network.View.{View, view, Talks, Talks-keeps, set-view}
use peerboot_cpp.Network.Graph.{Steady, flooding, has_peer, made}
use peerboot_cpp.Node.Relay.{greeting}
use peerboot_cpp.Network.Told.{Told, due_same, AllTold, AllTold-set}

-- A node that has gone on reading looks the same.
reading-view :
    (w : World) (id h : ℕ) (c : Client)
    → get_elem? w.clients id ≡ some c
    → open_handle (some c) ≡ some h
    → view (reading w id h c) ≡ view w
reading-view w id h c here own =
    let (live, on) = open_handle-eq-some c h own in
    set-view w id c (record c { state = receiving }) here refl (ground (arith, live))
      (ground (arith, live, on))

-- The completion of a write
pub record Completion (wire : Wiring) (envs : ℕ → Env) (j i : ℕ) (s : Net) : Type 0 where
  pub before : World
  pub peer : PeerWithId
  pub handle : ℕ
  pub client : Client
  pub here : get_elem? s.nodes j ≡ some before
  pub listed : get_elem? before.net.peers_out i ≡ some peer
  pub found : get_elem? before.clients peer.peer ≡ some client
  pub own : open_handle (some client) ≡ some handle
  pub done :
      finish envs wire j i s
      ≡ some (record {
        nodes = set s.nodes j (reading before peer.peer handle client);
        flying = s.flying;
      })

talks_in-receiving : (d : Direction) (s : State) → talks_in d s ≡ true → talks_in d receiving ≡ true
talks_in-receiving incoming s e = e
talks_in-receiving (outgoing host port) s e = refl

-- Reading tells nobody.
reading-Told :
    (m : PeerUpdateMessage) (w : World) (id h : ℕ) (c : Client) → Told m w (reading w id h c)
reading-Told m w id h c = record {
  acts = read_started h ∷ [];
  trace = refl;
  hears = sym (due_same (greeting m) (has_peer m w));
  keeps = λ e. e;
}

finish-reading :
    (envs : ℕ → Env) (wire : Wiring) (j i h : ℕ) (s : Net) (w : World) (p : PeerWithId) (c : Client)
    → get_elem? s.nodes j ≡ some w
    → get_elem? w.net.peers_out i ≡ some p
    → opened w.clients p.peer ≡ some h
    → on_write (envs j) p.peer (pos 0) w ≡ some (tt, reading w p.peer h c)
    → finish envs wire j i s
      ≡ some (record { nodes = set s.nodes j (reading w p.peer h c); flying = s.flying })
finish-reading envs wire j i h s w p c here listed own done =
    let acts : since w (reading w p.peer h c) ≡ read_started h ∷ [] =
      drop-append w.trace (read_started h ∷ []) in
    ground (arith, here, listed, own, done, acts, append-nil s.flying)

finish-listed :
    (envs : ℕ → Env) (wire : Wiring) (j i : ℕ) (s u : Net)
    → finish envs wire j i s ≡ some u
    → (w : World) × (p : PeerWithId) × (h : ℕ) × (get_elem? s.nodes j ≡ some w)
      × (get_elem? w.net.peers_out i ≡ some p)
      × (opened w.clients p.peer ≡ some h)
finish-listed envs wire j i s u done = elim (Option-cases (get_elem? s.nodes j)) [
  | inl gone ↦ absurd (ground (arith, gone, done))
  | inr (w, here) ↦ elim (Option-cases (get_elem? w.net.peers_out i)) [
    | inl gone ↦ absurd (ground (arith, here, gone, done))
    | inr (p, listed) ↦ elim (Option-cases (opened w.clients p.peer)) [
      | inl shut ↦ absurd (ground (arith, here, listed, shut, done))
      | inr (h, own) ↦ (w, p, h, here, listed, own)
    ]
  ]
]

module _ (envs : ℕ → Env) (wire : Wiring) (m : PeerUpdateMessage) (views : List View)
    (reads : (j : ℕ) → ReadsStart (envs j)) where
  -- A completed write over an open connection succeeds.
  pub finish-Completion :
      (s : Net) (j i h : ℕ) (w : World) (p : PeerWithId)
      → Steady m views s
      → get_elem? s.nodes j ≡ some w
      → get_elem? w.net.peers_out i ≡ some p
      → opened w.clients p.peer ≡ some h
      → Completion wire envs j i s
  finish-Completion s j i h w p steady here listed own =
      let (c, found, opens) = opened-client w p.peer h own in
      let talking = All-get_elem? Talks s.nodes j w here steady.talk i h p listed own in
      record {
        before = w;
        peer = p;
        handle = h;
        client = c;
        here = here;
        listed = listed;
        found = found;
        own = opens;
        done = finish-reading envs wire j i h s w p c here listed own (
            on_write_reads (envs j) p.peer h w c (reads j) found opens
              (sym (ap talks found) ∙ talking));
      }

  finished-Completion :
      (s u : Net) (j i : ℕ)
      → Steady m views s
      → finish envs wire j i s ≡ some u
      → Completion wire envs j i s
  finished-Completion s u j i steady done =
      let (w, p, h, here, listed, own) = finish-listed envs wire j i s u done in
      finish-Completion s j i h w p steady here listed own

  abbrev finished : (j i : ℕ) (s : Net) → Completion wire envs j i s → Net
  finished j i s a = record {
    nodes = set s.nodes j (reading a.before a.peer.peer a.handle a.client);
    flying = s.flying;
  }

  -- It changes nothing that an announcement depends on.
  finished-Steady :
      (s : Net) (j i : ℕ) (a : Completion wire envs j i s)
      → Steady m views s
      → Steady m views (finished j i s a)
  finished-Steady s j i a steady =
      let after : World = reading a.before a.peer.peer a.handle a.client in
      let same = reading-view a.before a.peer.peer a.handle a.client a.found a.own in
      record {
        same =
            map-set view s.nodes j (reading a.before a.peer.peer a.handle a.client)
            ∙ ap (set (map view s.nodes) j) same
            ∙ set-get_elem? (map view s.nodes) j (view a.before)
                (get_elem?-map view s.nodes j a.before a.here)
            ∙ steady.same;
        carried = steady.carried;
        talk = All-set Talks s.nodes j after steady.talk (
            Talks-keeps a.before after same
              (λ k e.
                talks-set a.before.clients a.peer.peer k a.client
                  (record a.client { state = receiving }) a.found
                  (talks_in-receiving a.client.direction a.client.state) e)
              (All-get_elem? Talks s.nodes j a.before a.here steady.talk));
      }

  finished-flooding :
      (s : Net) (j i : ℕ) (a : Completion wire envs j i s)
      → flooding m (finished j i s a) ≡ flooding m s
  finished-flooding s j i a =
      ap₂ made
        (map-set (has_peer m) s.nodes j (reading a.before a.peer.peer a.handle a.client)
          ∙ set-get_elem? (map (has_peer m) s.nodes) j (has_peer m a.before)
              (get_elem?-map (has_peer m) s.nodes j a.before a.here))
        refl

  pub finish-Steady :
      (s u : Net) (j i : ℕ)
      → Steady m views s
      → finish envs wire j i s ≡ some u
      → (flooding m u ≡ flooding m s)
        × Steady m views u
        × ((nodes : List World) → AllTold m nodes s.nodes → AllTold m nodes u.nodes)
  finish-Steady s u j i steady done =
      let a = finished-Completion s u j i steady done in
      let same : finished j i s a ≡ u = cc (a.done, done) in
      (
        sym (ap (flooding m) same) ∙ finished-flooding s j i a,
        subst (Steady m views) same (finished-Steady s j i a steady),
        λ nodes told.
            subst (λ x. AllTold m nodes x.nodes) same
              (AllTold-set m nodes s.nodes j a.before _ told a.here
                (reading-Told m a.before a.peer.peer a.handle a.client)),
      )
