-- ===== src/Network/Graph.antt =====
-- What is said of a network of nodes: which node leads to which, and what is under way between them.
use mathlib.Core.List.{Memᴰ}
use peerboot_cpp.Prelude.{
  ℕ, ◌^◌, ◌<◌, ◌≡◌, Bool, false, some, none, Option, List, [], ◌∷◌, get_elem?, map, All,
}
use peerboot_cpp.Text.Cut.{Without}
use peerboot_cpp.Wire.RoundTrip.{IsPrintable}
use peerboot_cpp.World.{World, PeerWithId, PeboNet}
use peerboot_cpp.Message.{PeerUpdateMessage, update, message_text}
use peerboot_cpp.PeboNet.Sends.{framed}
use peerboot_cpp.Store.{find_peer}
use peerboot_cpp.PeboNet.Updates.{is_known}
use peerboot_cpp.Network.{Packet, Net, Wiring}
use peerboot_cpp.Network.Flooding.{Flooding}
use peerboot_cpp.Network.View.{View, view, InOrder, Accepts, Talks}

-- The nodes at the ends of a node's open outgoing connections.
abbrev pub links_over : Wiring → ℕ → View → List PeerWithId → List ℕ
links_over wire j v [] = []
links_over wire j v (p ∷ peers) =
    let rest = links_over wire j v peers in
    elim (v.opens p.peer) [
      | none ↦ rest
      | some h ↦ elim (wire j p.peer) [ none ↦ rest | some (k, conn) ↦ k ∷ rest ]
    ]

abbrev links_of : Wiring → ℕ → Option View → List ℕ
links_of wire j none = []
links_of wire j (some v) = links_over wire j v v.peers_out

-- The graph of the nodes
abbrev pub links : Wiring → List View → ℕ → List ℕ
links wire views j = links_of wire j (get_elem? views j)

-- The connection is an open accepted one of that node.
abbrev pub Receives : List View → ℕ → ℕ → Type 0
Receives views k conn = (v : View) × (get_elem? views k ≡ some v) × Accepts v conn

-- A network in order: so is each node, and its wired outgoing connections lead to accepted ones.
pub record AllInOrder (wire : Wiring) (views : List View) : Type 0 where
  pub nodes : (j : ℕ) (v : View) → get_elem? views j ≡ some v → InOrder v
  pub wired :
      (j : ℕ) (v : View) (p : PeerWithId) (k conn : ℕ)
      → get_elem? views j ≡ some v
      → Memᴰ p v.peers_out
      → wire j p.peer ≡ some (k, conn)
      → Receives views k conn

-- The peer of the update can travel: it is read back from its text.
pub record Travels (m : PeerUpdateMessage) : Type 0 where
  pub printable : IsPrintable (update m)
  pub small : m.last_seen < 2 ^ 31
  pub zeros : Without 0 (message_text (update m))

-- The node has the peer as present.
abbrev pub has_peer_in : PeerUpdateMessage → PeboNet → Bool
has_peer_in m net = is_known false (find_peer net.store m.service m.endpoint)

abbrev pub has_peer : PeerUpdateMessage → World → Bool
has_peer m w = has_peer_in m w.net

-- Which nodes have the peer, and where its updates are going.
abbrev pub flooding : PeerUpdateMessage → Net → Flooding
flooding m s = record { has = map (has_peer m) s.nodes; coming = map (λ p. p.node) s.flying }

abbrev pub made : List Bool → List ℕ → Flooding
made has coming = record { has = has; coming = coming }

-- What is under way is the update, to an accepted connection.
abbrev pub Carries : PeerUpdateMessage → List View → Packet → Type 0
Carries m views p = (p.bytes ≡ framed (update m)) × Receives views p.node p.conn

-- The nodes look as they did, their open outgoing connections can go on reading, and nothing but the update is under
-- way.
pub record Steady (m : PeerUpdateMessage) (views : List View) (s : Net) : Type 0 where
  pub same : map view s.nodes ≡ views
  pub carried : All (Carries m views) s.flying
  pub talk : All Talks s.nodes
