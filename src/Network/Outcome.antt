-- ===== src/Network/Outcome.antt =====
-- What an announcement in a network of nodes comes to, whatever the order in which its packets arrive.
use mathlib.Core.List.{Memᴰ}
use peerboot_cpp.NetClient.Completion.{ReadsStart}
use peerboot_cpp.Prelude.{
  All, ℕ, ◌+◌, ◌≤◌, ◌≢◌, ◌≡◌, ap, subst, sym, ◌∙◌, Bool, true, false, some, List, [], ◌++◌, arith,
  get_elem?, map, inl, inr, length, get_elem?-map, get_elem?-of_map, Nat-cases, length-map,
}
use peerboot_cpp.Types.{PeerInfo}
use peerboot_cpp.World.{World, Env, Act}
use peerboot_cpp.Message.{PeerUpdateMessage}
use peerboot_cpp.PeboNet.Sends.{WritesSucceed}
use peerboot_cpp.PeboNet.Flood.{Knows}
use peerboot_cpp.Node.Path.{announced}
use peerboot_cpp.Network.{Net, Wiring, announce, Deliveries, rests}
use peerboot_cpp.Network.Flooding.{Flooding, Run, Walk}
use peerboot_cpp.Network.Flooding.Ends.{link_count, unused-le_without, weight, Run-weight}
use peerboot_cpp.Network.Flooding.Covers.{Has, Covered, Run-Covered, Run-Has, Covered-Walk}
use peerboot_cpp.Network.View.{view, Talks}
use peerboot_cpp.Network.Graph.{AllInOrder, Steady, Travels, flooding, has_peer, links, made}
use peerboot_cpp.Network.Announcement.{
  idle, announce-starts, Deliveries-Run, Deliveries-Told, settles,
}
use peerboot_cpp.Network.Told.{AllTold, told_of, due}
use peerboot_cpp.Node.Relay.{greeting}

-- Where a node other than `j` has the item, so have the nodes at the ends of its links.
abbrev pub IsClosed : (ℕ → List ℕ) → ℕ → List Bool → Type 0
IsClosed graph j has =
    (k l : ℕ) → k ≢ j → get_elem? has k ≡ some true → Memᴰ l (graph k) → get_elem? has l ≡ some true

-- The network `s` after the node `j` has announced a peer, and the network `t` after `n` arrivals more.
module _ (envs : ℕ → Env) (wire : Wiring) (nodes : List World) (j : ℕ) (w : World) (peer : PeerInfo)
    (s : Net) (n : ℕ) (t : Net) (succeeds : (k : ℕ) → WritesSucceed (envs k))
    (reads : (k : ℕ) → ReadsStart (envs k)) (talking : All Talks nodes)
    (in_order : AllInOrder wire (map view nodes)) (travels : Travels (announced (envs j) w peer))
    (here : get_elem? nodes j ≡ some w) (has_it : Knows w peer.service peer.endpoint false)
    (done : announce envs wire j peer (idle nodes) ≡ some s)
    (run : Deliveries envs wire s n t) where
  abbrev m : PeerUpdateMessage
  m = announced (envs j) w peer

  abbrev graph : ℕ → List ℕ
  graph = links wire (map view nodes)

  abbrev first : Flooding
  first = made (map (has_peer m) nodes) (graph j)

  Announced-Run :
      Run graph first n (flooding m t) × Steady m (map view nodes) t × AllTold m nodes t.nodes
  Announced-Run =
      let (s', done', starts, steady, told) =
        announce-starts envs wire nodes j w peer succeeds in_order talking here in
      let same : s' ≡ s = cc (done', done) in
      let begins = subst (Steady m (map view nodes)) same steady in
      let (moved, steady') =
        Deliveries-Run envs wire m (map view nodes) succeeds in_order travels reads s n t begins
          run in
      (
        subst (λ f. Run graph f n (flooding m t)) (sym (ap (flooding m) same) ∙ starts) moved,
        steady',
        Deliveries-Told envs wire m (map view nodes) succeeds in_order travels reads nodes s n t
            begins (subst (λ x. AllTold m nodes x.nodes) same told) run,
      )

  first-Has : Has graph first j
  first-Has = get_elem?-map (has_peer m) nodes j w here ∙ ap some has_it

  -- However the messages of an announcement arrive, the number of arrivals and of the messages
  -- that are still under way is at most the number of the network's links; and from every state
  -- on the way the messages can go on arriving until none is left. (The network is in order, that
  -- is, the nodes have their callbacks, their outgoing connections are open, or closing or
  -- closed, and lead to open accepted ones with empty buffers, if to nodes of the network, and no
  -- outgoing peer has the address of an accepted connection; writes succeed and reads can be
  -- started; each write arrives by one read, with a
  -- zero byte right behind it in the read buffer, and nothing happens meanwhile but these arrivals and
  -- the completion of writes over open connections, in any order; the announcing node has the
  -- peer; its names are printable, without zero bytes, and its time is below 2 ^ 31.)
  pub announcement_ends :
      (n + length t.flying ≤ link_count graph 0 (length nodes))
      × ((k : ℕ) × (u : Net) × Deliveries envs wire t k u × (u.flying ≡ []))
  announcement_ends =
      let (moved, steady, _) = Announced-Run in
      (
        omega (
          arith,
          Run-weight graph first n (flooding m t) moved,
          unused-le_without graph 0 j j first.has (omega arith) first-Has,
          length-map (has_peer m) nodes,
          length-map (λ p. p.node) t.flying,
          ap (link_count graph 0) (length-map (has_peer m) nodes),
        ),
        settles envs wire m (map view nodes) succeeds in_order travels reads
            (weight graph (flooding m t)) t 0 t steady rests (omega arith),
      )

  -- However the messages of an announcement arrive, no node's client is told of anything but the
  -- announced peer, as not removed, and of that only once: exactly if the node did not have the
  -- peer as present before the announcement and has it now. (The network is in order, that is,
  -- the nodes have their callbacks, their outgoing connections are open, or closing or closed,
  -- and lead to open accepted ones with empty buffers, if to nodes of the network, and no
  -- outgoing peer has the address of an accepted connection; writes succeed and reads can be
  -- started; each write arrives by one read, with a
  -- zero byte right behind it in the read buffer, and nothing happens meanwhile but these arrivals and
  -- the completion of writes over open connections, in any order; the announcing node has the
  -- peer; its names are printable, without zero bytes, and its time is below 2 ^ 31.)
  pub announcement_tells :
      (k : ℕ) (x v : World)
      → get_elem? nodes k ≡ some x
      → get_elem? t.nodes k ≡ some v
      → (acts : List Act) × (v.trace ≡ x.trace ++ acts)
        × (told_of acts ≡ due (greeting m) (has_peer m x) (has_peer m v))
  announcement_tells k x v before now_is =
      let (_, _, all) = Announced-Run in
      let (v', there, told) = all k x before in
      let same : v' ≡ v = cc (there, now_is) in
      (
        told.acts,
        subst (λ y. y.trace ≡ x.trace ++ told.acts) same told.trace,
        subst (λ y. told_of told.acts ≡ due (greeting m) (has_peer m x) (has_peer m y)) same
            told.hears,
      )

  first-Covered : IsClosed graph j first.has → Covered graph first
  first-Covered closed k l has link = elim (Nat-cases k j) [
    | inl same ↦ inr (subst (λ x. Memᴰ l (graph x)) same link)
    | inr other ↦ inl (closed k l other has link)
  ]

  -- When no message of an announcement is under way any more, every node that a walk along links
  -- from the announcing node leads to has the peer as present, whatever the order in which the
  -- messages arrived. (Of the other nodes that had the peer before, so had the nodes at the ends
  -- of their links.) (The network is in order, that is, the nodes have their callbacks, their
  -- outgoing connections are open, or closing or closed, and lead to open accepted ones with
  -- empty buffers, if to nodes of the network, and no outgoing peer has the address of an
  -- accepted connection; writes succeed and reads can be started; each write arrives by one read,
  -- with a zero byte right behind it in the read buffer, and nothing happens meanwhile but these arrivals and the completion of writes over open
  -- connections, in any order; the announcing node has the peer; its names are printable, without
  -- zero bytes, and its time is below 2 ^ 31.)
  pub announcement_reaches :
      (k : ℕ)
      → IsClosed graph j first.has
      → t.flying ≡ []
      → Walk graph j k
      → (v : World) × (get_elem? t.nodes k ≡ some v) × Knows v peer.service peer.endpoint false
  announcement_reaches k closed quiet walk =
      let (moved, _, _) = Announced-Run in
      let all =
        Covered-Walk graph (flooding m t) j k
          (Run-Covered graph first n (flooding m t) moved (first-Covered closed))
          (ap (map (λ p. p.node)) quiet) (Run-Has graph first n (flooding m t) j moved first-Has)
          walk in
      let (v, there, knows) = get_elem?-of_map (has_peer m) t.nodes k true all in (v, there, knows)
