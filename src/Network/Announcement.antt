-- ===== src/Network/Announcement.antt =====
-- What becomes of an announcement in a network of nodes.
use peerboot_cpp.PeboNet.Talks.{talks}
use peerboot_cpp.NetClient.Completion.{ReadsStart}
use peerboot_cpp.Network.Completes.{finish-Steady}
use peerboot_cpp.Prelude.{
  true, All, All-set, All-get_elem?, sym, ℕ, ◌≡◌, ◌≤◌, List-cases, length-map, zero, suc, remove,
  refl, ap, subst, ◌∙◌, some, List, [], ◌++◌, arith, get_elem?, set, map, ap₂, Option-cases, inl,
  inr, drop-append, drop, length, get_elem?-map, map-set, set-get_elem?,
}
use peerboot_cpp.Types.{PeerInfo, err_ok}
use peerboot_cpp.World.{World, Env}
use peerboot_cpp.Message.{PeerUpdateMessage, update, peer_update_message}
use peerboot_cpp.PeboNet.{broadcast, local_node_addr}
use peerboot_cpp.PeboNet.Sends.{WritesSucceed, framed, writes, opened}
use peerboot_cpp.PeboNet.Broadcast.{do_broadcast_msg_lem}
use peerboot_cpp.Node.Path.{announced}
use peerboot_cpp.Network.{
  Packet, Net, Wiring, Read, sent, since, deliver, announce, Deliveries, rests, goes_on, completes,
}
use peerboot_cpp.Network.Flooding
use peerboot_cpp.Network.Flooding.Ends.{weight, Moves-weight}
use peerboot_cpp.Network.Hears.{passed_on}
use peerboot_cpp.Network.Flooding.{Flooding, Moves, Run, Walk}
use peerboot_cpp.Network.View.{View, view, InOrder, Sends-view, Talks, Talks-keeps}
use peerboot_cpp.Network.Graph.{
  AllInOrder, Steady, Travels, flooding, has_peer, links, made, has_peer_in,
}
use peerboot_cpp.Network.Simulates.{Arrival, deliver-Arrival, deliver-Moves, sent-writes}
use peerboot_cpp.Network.Told.{AllTold, AllTold-refl, AllTold-set, Heard-Told, writes-Told}

-- In a node in order, a broadcast writes to every open outgoing connection and changes no store.
broadcast-writes :
    (env : Env) (w : World) (peer : PeerInfo)
    → WritesSucceed env
    → InOrder (view w)
    → (w' : World) × (broadcast env peer w ≡ some (err_ok, w'))
      × (w'.trace
          ≡ w.trace
            ++ writes (opened w.clients) (framed (update (announced env w peer))) w.net.peers_out)
      × (view w' ≡ view w)
      × (w'.net ≡ w.net)
      × ((j : ℕ) → talks (get_elem? w.clients j) ≡ true → talks (get_elem? w'.clients j) ≡ true)
unfolding broadcast peer_update_message
broadcast-writes env w peer ok r =
    let m = announced env w peer in
    let (w', done, s) =
      do_broadcast_msg_lem env (update m) local_node_addr w ok (rw r.far r.peers) in
    (w', done, s.trace ∙ rw r.far refl, Sends-view w w' _ s, s.frame.net, s.talk)

module _ (envs : ℕ → Env) (wire : Wiring) (m : PeerUpdateMessage) (views : List View)
    (ok : (j : ℕ) → WritesSucceed (envs j)) (sound : AllInOrder wire views) (travels : Travels m)
    (reads : (j : ℕ) → ReadsStart (envs j)) where
  delivered-Arrival :
      (s s' : Net) (r : Read)
      → Steady m views s
      → deliver envs wire r s ≡ some s'
      → (p : Packet) × (get_elem? s.flying r.at ≡ some p) × Arrival wire m views sound envs s r p
  delivered-Arrival s s' r steady done = elim (Option-cases (get_elem? s.flying r.at)) [
    | inl nothing ↦ absurd (ground (arith, nothing, done))
    | inr (p, under_way) ↦
        (p, under_way, deliver-Arrival wire m views sound envs s r p ok travels steady under_way)
  ]

  delivered-Moves :
      (s s' : Net) (r : Read)
      → Steady m views s
      → deliver envs wire r s ≡ some s'
      → Moves (links wire views) (flooding m s) (flooding m s') × Steady m views s'
  delivered-Moves s s' r steady done =
      let (p, under_way, _) = delivered-Arrival s s' r steady done in
      let (t, done', move, steady') =
        deliver-Moves wire m views sound envs s r p ok travels steady under_way in
      let same : t ≡ s' = cc (done, done') in
      (
        subst (λ x. Moves (links wire views) (flooding m s) (flooding m x)) same move,
        subst (Steady m views) same steady',
      )

  pub Deliveries-Run :
      (s : Net) (n : ℕ) (t : Net)
      → Steady m views s
      → Deliveries envs wire s n t
      → Run (links wire views) (flooding m s) n (flooding m t) × Steady m views t
  Deliveries-Run s _ _ steady rests = (Flooding.rests, steady)
  Deliveries-Run s _ _ steady (goes_on {n} {t = u} {u = t} r run done) =
      let (moved, steady') = Deliveries-Run s n u steady run in
      let (move, steady'') = delivered-Moves u t r steady' done in
      (Flooding.goes_on moved move, steady'')
  Deliveries-Run s _ _ steady (completes {n} {t = u} {u = t} j i run done) =
      let (moved, steady') = Deliveries-Run s n u steady run in
      let (same, steady'', _) = finish-Steady envs wire m views reads u t j i steady' done in
      (subst (Run (links wire views) (flooding m s) n) (sym same) moved, steady'')

  delivered-Told :
      (nodes : List World) (s s' : Net) (r : Read)
      → Steady m views s
      → deliver envs wire r s ≡ some s'
      → AllTold m nodes s.nodes
      → AllTold m nodes s'.nodes
  delivered-Told nodes s s' r steady done told =
      let (p, _, a) = delivered-Arrival s s' r steady done in
      let after : Net = record {
        nodes = set s.nodes p.node a.after;
        flying = remove s.flying r.at ++ sent wire p.node (passed_on a.before m);
      } in
      let q : after ≡ s' = cc (a.done, done) in
      subst (AllTold m nodes) (ap (λ x. x.nodes) q) (
        AllTold-set m nodes s.nodes p.node a.before a.after told a.here
          (Heard-Told m a.before a.after a.heard))

  pub Deliveries-Told :
      (nodes : List World) (s : Net) (n : ℕ) (t : Net)
      → Steady m views s
      → AllTold m nodes s.nodes
      → Deliveries envs wire s n t
      → AllTold m nodes t.nodes
  Deliveries-Told nodes s _ _ steady told rests = told
  Deliveries-Told nodes s _ _ steady told (goes_on {n} {t = u} {u = t} r run done) =
      delivered-Told nodes u t r (Deliveries-Run s n u steady run).1 done
        (Deliveries-Told nodes s n u steady told run)
  Deliveries-Told nodes s _ _ steady told (completes {n} {t = u} {u = t} j i run done) =
      (finish-Steady envs wire m views reads u t j i (Deliveries-Run s n u steady run).1 done).2
        nodes (Deliveries-Told nodes s n u steady told run)

  -- The packets arrive in turn until none is left; `n` of them have since the network was `s`.
  pub settles :
      (fuel : ℕ) (s : Net) (n : ℕ) (t : Net)
      → Steady m views t
      → Deliveries envs wire s n t
      → weight (links wire views) (flooding m t) ≤ fuel
      → (k : ℕ) × (u : Net) × Deliveries envs wire s k u × (u.flying ≡ [])
  settles zero s n t steady run le = elim (List-cases t.flying) [
    | inl quiet ↦ (n, t, run, quiet)
    | inr (p, rest, under_way) ↦
        absurd (omega (arith, le, ap length under_way, length-map (λ q. q.node) t.flying))
  ]
  settles (suc fuel) s n t steady run le = elim (List-cases t.flying) [
    | inl quiet ↦ (n, t, run, quiet)
    | inr (p, rest, under_way) ↦
        let r : Read = record { at = 0; hr = 0; nread = 0; junk = [] } in
        let (u, done, move, steady') =
          deliver-Moves wire m views sound envs t r p ok travels steady
            (ap (λ ps. get_elem? ps 0) under_way) in
        settles fuel s (suc n) u steady' (goes_on r run done)
          (omega (arith, le, Moves-weight (links wire views) (flooding m t) (flooding m u) move))
  ]

-- A network in which nothing is under way
abbrev pub idle : List World → Net
idle nodes = record { nodes = nodes; flying = [] }

announce-eq :
    (envs : ℕ → Env) (wire : Wiring) (j : ℕ) (peer : PeerInfo) (s : Net) (w w' : World)
    → get_elem? s.nodes j ≡ some w
    → broadcast (envs j) peer w ≡ some (err_ok, w')
    → announce envs wire j peer s
      ≡ some (record { nodes = set s.nodes j w'; flying = s.flying ++ sent wire j (since w w') })
announce-eq envs wire j peer s w w' here done = ground (arith, here, done)

-- In a network in order whose writes succeed, a node's announcement of a peer succeeds: one packet with
-- the announcement is under way along each of the node's links, and nothing else; the same nodes have
-- the peer as before, and the network is in order.
pub announce-starts :
    (envs : ℕ → Env) (wire : Wiring) (nodes : List World) (j : ℕ) (w : World) (peer : PeerInfo)
    → ((k : ℕ) → WritesSucceed (envs k))
    → AllInOrder wire (map view nodes)
    → All Talks nodes
    → get_elem? nodes j ≡ some w
    → (s : Net) × (announce envs wire j peer (idle nodes) ≡ some s)
      × (flooding (announced (envs j) w peer) s ≡ record {
        has = map (has_peer (announced (envs j) w peer)) nodes;
        coming = links wire (map view nodes) j;
      })
      × Steady (announced (envs j) w peer) (map view nodes) s
      × AllTold (announced (envs j) w peer) nodes s.nodes
announce-starts envs wire nodes j w peer ok sound talking here =
    let m = announced (envs j) w peer in
    let there = get_elem?-map view nodes j w here in
    let (w', done, trace, same, net, talk) =
      broadcast-writes (envs j) w peer (ok j) (sound.nodes j (view w) there) in
    let (out, carried) =
      sent-writes wire m (map view nodes) sound j (view w) w.net.peers_out there (λ p i. i) in
    let acts = writes (opened w.clients) (framed (update m)) w.net.peers_out in
    let news : since w w' ≡ acts = ap (drop (length w.trace)) trace ∙ drop-append w.trace acts in
    (
      record { nodes = set nodes j w'; flying = sent wire j acts },
      announce-eq envs wire j peer (idle nodes) w w' here done ∙ rw news refl,
      ap₂ made
          (map-set (has_peer m) nodes j w'
            ∙ ap (λ n. set (map (has_peer m) nodes) j (has_peer_in m n)) net
            ∙ set-get_elem? (map (has_peer m) nodes) j (has_peer m w)
                (get_elem?-map (has_peer m) nodes j w here))
          (out ∙ rw there refl),
      record {
        same =
            map-set view nodes j w'
            ∙ ap (set (map view nodes) j) same
            ∙ set-get_elem? (map view nodes) j (view w) there;
        carried = carried;
        talk =
            All-set Talks nodes j w' talking
              (Talks-keeps w w' same talk (All-get_elem? Talks nodes j w here talking));
      },
      AllTold-set m nodes nodes j w w' (AllTold-refl m nodes) here
          (writes-Told m w w' (opened w.clients) (framed (update m)) w.net.peers_out trace net),
    )
