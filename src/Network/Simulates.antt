-- ===== src/Network/Simulates.antt =====
-- The arrival of messages at nodes, and the moves of `Flooding`.
use mathlib.Core.List.{Memᴰ, append-nil}
use peerboot_cpp.Prelude.{
  ℕ, suc, ◌≡◌, refl, ap, subst, sym, ◌∙◌, Bool, true, false, some, List, [], ◌∷◌, ◌++◌, arith,
  get_elem?, set, remove, drop, length, ap₂, map, Bool-cases, Option-cases, inl, inr, if◌then◌else◌,
  All, All-append, All-remove, All-set, All-get_elem?, drop-append, get_elem?-map, get_elem?-of_map,
  map-set, map-remove, map-append, set-get_elem?,
}
use peerboot_cpp.Prelude.Int.{pos}
use peerboot_cpp.NetClient.Receive.{on_read}
use peerboot_cpp.World.{World, Env, PeerWithId, Act}
use peerboot_cpp.Message.{PeerUpdateMessage, update}
use peerboot_cpp.PeboNet.Sends.{WritesSucceed, framed, writes}
use peerboot_cpp.Network.{Packet, Net, Wiring, Read, sent, since, deliver}
use peerboot_cpp.Network.Graph.{
  AllInOrder, Carries, Steady, Travels, flooding, has_peer, links, links_over, made,
}
use peerboot_cpp.Network.Flooding.{Flooding, reached, Moves, moves}
use peerboot_cpp.Network.View.{View, view, InOrder, Accepts, Talks, Talks-keeps}
use peerboot_cpp.Network.Hears.{passed_on, Heard, on_read_hears}

deliver-arrives :
    (envs : ℕ → Env) (wire : Wiring) (s : Net) (r : Read) (p : Packet) (w w' : World)
    (acts : List Act)
    → get_elem? s.flying r.at ≡ some p
    → get_elem? s.nodes p.node ≡ some w
    → on_read (envs p.node) p.conn r.hr (pos (suc r.nread)) (some (p.bytes ++ 0 ∷ r.junk)) w
      ≡ some (tt, w')
    → since w w' ≡ acts
    → deliver envs wire r s
      ≡ some (record {
        nodes = set s.nodes p.node w';
        flying = remove s.flying r.at ++ sent wire p.node acts;
      })
deliver-arrives envs wire s r p w w' acts under_way here done news =
    ground (arith, under_way, here, done, news)

module _ (wire : Wiring) (m : PeerUpdateMessage) (views : List View)
    (sound : AllInOrder wire views) where
  -- What a node writes goes along its links.
  pub sent-writes :
      (j : ℕ) (v : View) (peers : List PeerWithId)
      → get_elem? views j ≡ some v
      → ((p : PeerWithId) → Memᴰ p peers → Memᴰ p v.peers_out)
      → (map (λ p. p.node) (sent wire j (writes v.opens (framed (update m)) peers))
          ≡ links_over wire j v peers)
        × All (Carries m views) (sent wire j (writes v.opens (framed (update m)) peers))
  sent-writes j v [] e sub = (refl, tt)
  sent-writes j v (p ∷ peers) e sub =
      let (same, all) = sent-writes j v peers e (λ q i. sub q (Memᴰ.tail i)) in
      elim (Option-cases (v.opens p.peer)) [
        | inl shut ↦ rw (shut, writes, links_over) (same, all)
        | inr (h, open_on) ↦ elim (Option-cases (wire j p.peer)) [
          | inl away ↦ rw (open_on, writes, links_over) (rw (away, sent) (same, all))
          | inr ((k, conn), leads) ↦
              rw (open_on, writes, links_over)
                (rw (leads, sent)
                  (
                    ap (◌∷◌ k) same,
                    ((refl, sound.wired j v p k conn e (sub p (Memᴰ.head refl)) leads), all),
                  ))
        ]
      ]

  -- What a node passes on of an update: nothing if it had the peer, else one message along each link.
  sent-passed_on :
      (k : ℕ) (w : World)
      → get_elem? views k ≡ some (view w)
      → (map (λ p. p.node) (sent wire k (passed_on w m))
          ≡ (if has_peer m w then [] else links wire views k))
        × All (Carries m views) (sent wire k (passed_on w m))
  sent-passed_on k w e = elim (Bool-cases (has_peer m w)) [
    | inl known ↦ rw known (refl, tt)
    | inr news ↦ rw (news, e) (sent-writes k (view w) w.net.peers_out e (λ p i. i))
  ]

  -- Both kinds of moves at once
  reached-as_one :
      (s : Flooding) (i k : ℕ) (b : Bool)
      → get_elem? s.has k ≡ some b
      → made (set s.has k true) (remove s.coming i ++ (if b then [] else links wire views k))
        ≡ reached (links wire views) s i k b
  reached-as_one s i k false h = refl
  reached-as_one s i k true h =
      ap₂ made (set-get_elem? s.has k true h) (append-nil (remove s.coming i))

  flooding-arrival :
      (s : Net) (i : ℕ) (p : Packet) (w w' : World) (acts : List Packet)
      → get_elem? s.nodes p.node ≡ some w
      → Heard w w' m
      → map (λ q. q.node) acts ≡ (if has_peer m w then [] else links wire views p.node)
      → flooding m (record { nodes = set s.nodes p.node w'; flying = remove s.flying i ++ acts })
        ≡ reached (links wire views) (flooding m s) i p.node (has_peer m w)
  flooding-arrival s i p w w' acts here heard out =
      ap₂ made
        (map-set (has_peer m) s.nodes p.node w'
          ∙ ap (set (map (has_peer m) s.nodes) p.node) heard.knows)
        (map-append (λ q. q.node) (remove s.flying i) acts
          ∙ ap₂ (λ x y. x ++ y) (map-remove (λ q. q.node) s.flying i) out)
      ∙ reached-as_one (flooding m s) i p.node (has_peer m w)
          (get_elem?-map (has_peer m) s.nodes p.node w here)

  -- The arrival of a packet
  pub record Arrival (envs : ℕ → Env) (s : Net) (r : Read) (p : Packet) : Type 0 where
    pub before : World
    pub after : World
    pub here : get_elem? s.nodes p.node ≡ some before
    pub there : get_elem? views p.node ≡ some (view before)
    pub heard : Heard before after m
    pub done :
        deliver envs wire r s
        ≡ some (record {
          nodes = set s.nodes p.node after;
          flying = remove s.flying r.at ++ sent wire p.node (passed_on before m);
        })

  pub deliver-Arrival :
      (envs : ℕ → Env) (s : Net) (r : Read) (p : Packet)
      → ((j : ℕ) → WritesSucceed (envs j))
      → Travels m
      → Steady m views s
      → get_elem? s.flying r.at ≡ some p
      → Arrival envs s r p
  deliver-Arrival envs s r p ok travels steady under_way =
      let (bytes, (v, there, accepts)) =
        All-get_elem? (Carries m views) s.flying r.at p under_way steady.carried in
      let (w, here, looks) =
        get_elem?-of_map view s.nodes p.node v
          (ap (λ vs. get_elem? vs p.node) steady.same ∙ there) in
      let (w', read, heard) =
        on_read_hears (envs p.node) p.conn r.hr r.nread w m r.junk (ok p.node)
          (subst InOrder (sym looks) (sound.nodes p.node v there))
          (subst (λ x. Accepts x p.conn) (sym looks) accepts) travels.printable travels.small
          travels.zeros in
      record {
        before = w;
        after = w';
        here = here;
        there = there ∙ ap some (sym looks);
        heard = heard;
        done =
            deliver-arrives envs wire s r p w w' (passed_on w m) under_way here
              (ap
                  (λ b.
                    on_read (envs p.node) p.conn r.hr (pos (suc r.nread)) (some (b ++ 0 ∷ r.junk))
                      w)
                  bytes
                ∙ read)
              (ap (drop (length w.trace)) heard.trace ∙ drop-append w.trace (passed_on w m));
      }

  -- In a network in order whose writes succeed, with open outgoing connections that can go on
  -- reading, and in which nothing but a printable update is under way, to accepted connections,
  -- every message that is under way can arrive, and its arrival is a move of the flooding along
  -- the nodes' links: the node has the peer afterwards, and if it had not before, one message is
  -- sent along each of its links, and none otherwise. All this holds of the network afterwards
  -- too. (The update's time is below 2 ^ 31, in each read a zero
  -- byte stands right behind the bytes that arrived, and the names have none.)
  pub deliver-Moves :
      (envs : ℕ → Env) (s : Net) (r : Read) (p : Packet)
      → ((j : ℕ) → WritesSucceed (envs j))
      → Travels m
      → Steady m views s
      → get_elem? s.flying r.at ≡ some p
      → (s' : Net) × (deliver envs wire r s ≡ some s')
        × Moves (links wire views) (flooding m s) (flooding m s')
        × Steady m views s'
  deliver-Moves envs s r p ok travels steady under_way =
      let a = deliver-Arrival envs s r p ok travels steady under_way in
      let (out, carried) = sent-passed_on p.node a.before a.there in
      (
        _,
        a.done,
        subst (Moves (links wire views) (flooding m s))
            (sym (flooding-arrival s r.at p a.before a.after _ a.here a.heard out))
            (moves r.at p.node (has_peer m a.before)
              (get_elem?-map (λ q. q.node) s.flying r.at p under_way)
              (get_elem?-map (has_peer m) s.nodes p.node a.before a.here)),
        record {
          same =
              map-set view s.nodes p.node a.after
              ∙ ap (set (map view s.nodes) p.node) a.heard.same
              ∙ set-get_elem? (map view s.nodes) p.node (view a.before)
                  (get_elem?-map view s.nodes p.node a.before a.here)
              ∙ steady.same;
          carried =
              All-append (Carries m views) (remove s.flying r.at) _
                (All-remove (Carries m views) s.flying r.at steady.carried) carried;
          talk = All-set Talks s.nodes p.node a.after steady.talk (
              Talks-keeps a.before a.after a.heard.same a.heard.talk
                (All-get_elem? Talks s.nodes p.node a.before a.here steady.talk));
        },
      )
