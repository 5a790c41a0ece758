-- ===== src/Network.antt =====
-- Nodes that are connected with one another: what one writes over a connection is read by the node at
-- the other end. Which connection of which node that is, is TCP's business, and the order in which the
-- bytes arrive too: the first is a parameter, the second is left open.
pub mod Flooding
pub mod View
pub mod Hears
pub mod Graph
pub mod Simulates
pub mod Completes
pub mod Told
pub mod Announcement
pub mod Outcome
use peerboot_cpp.Prelude.{
  ℕ, suc, Option, some, none, List, [], ◌∷◌, ◌++◌, get_elem?, set, remove, drop, length, ◌≡◌,
}
use peerboot_cpp.Prelude.Int.{pos}
use peerboot_cpp.Text.{Str}
use peerboot_cpp.World.{World, Env, Act, wrote}
use peerboot_cpp.Types.{PeerInfo}
use peerboot_cpp.PeboNet.{broadcast}
use peerboot_cpp.NetClient.{on_write}
use peerboot_cpp.PeboNet.Sends.{opened}
use peerboot_cpp.NetClient.Receive.{on_read}

-- Bytes on their way to a connection of a node.
pub record Packet : Type 0 where
  pub node : ℕ
  pub conn : ℕ
  pub bytes : Str

pub record Net : Type 0 where
  pub nodes : List World
  pub flying : List Packet

-- Where a connection of a node leads to: a connection of another, if that is one of the network's.
abbrev pub Wiring : Type 0
Wiring = ℕ → ℕ → Option (ℕ × ℕ)

-- The packets that the node's acts send.
abbrev pub sent : Wiring → ℕ → List Act → List Packet
sent wire j [] = []
sent wire j (wrote id h bytes ∷ acts) =
    let rest = sent wire j acts in
    elim (wire j id) [
      | none ↦ rest
      | some (k, conn) ↦ record { node = k; conn = conn; bytes = bytes } ∷ rest
    ]
sent wire j (_ ∷ acts) = sent wire j acts

-- What the second world has done since the first.
abbrev pub since : World → World → List Act
since w w' = drop (length w.trace) w'.trace

-- A packet arrives by one read: `hr` is the stream that libuv names, and behind the zero byte the read
-- buffer holds `junk`.
pub record Read : Type 0 where
  pub at : ℕ
  pub hr : ℕ
  pub nread : ℕ
  pub junk : Str

abbrev pub arrives : (ℕ → Env) → Wiring → Read → Packet → World → Net → Option Net
arrives envs wire r p w s =
    elim (on_read (envs p.node) p.conn r.hr (pos (suc r.nread)) (some (p.bytes ++ 0 ∷ r.junk)) w) [
      | none ↦ none
      | some (_, w') ↦ some (record {
        nodes = set s.nodes p.node w';
        flying = remove s.flying r.at ++ sent wire p.node (since w w');
      })
    ]

-- Any of the packets under way arrives.
abbrev pub deliver : (ℕ → Env) → Wiring → Read → Net → Option Net
deliver envs wire r s = elim (get_elem? s.flying r.at) [
  | none ↦ none
  | some p ↦ elim (get_elem? s.nodes p.node) [ none ↦ none | some w ↦ arrives envs wire r p w s ]
]

-- A node of the network announces a peer.
abbrev pub announce : (ℕ → Env) → Wiring → ℕ → PeerInfo → Net → Option Net
announce envs wire j peer s = elim (get_elem? s.nodes j) [
  | none ↦ none
  | some w ↦ elim (broadcast (envs j) peer w) [
    | none ↦ none
    | some (_, w') ↦
        some (record { nodes = set s.nodes j w'; flying = s.flying ++ sent wire j (since w w') })
  ]
]

-- libuv tells a node that a write over its outgoing connection `i`, which is open, has completed.
abbrev pub finish : (ℕ → Env) → Wiring → ℕ → ℕ → Net → Option Net
finish envs wire j i s = elim (get_elem? s.nodes j) [
  | none ↦ none
  | some w ↦ elim (get_elem? w.net.peers_out i) [
    | none ↦ none
    | some p ↦ elim (opened w.clients p.peer) [
      | none ↦ none
      | some h ↦ elim (on_write (envs j) p.peer (pos 0) w) [
        | none ↦ none
        | some (_, w') ↦
            some
              (record { nodes = set s.nodes j w'; flying = s.flying ++ sent wire j (since w w') })
      ]
    ]
  ]
]

-- So many packets arrive, in some order, and writes complete in between, whether or not there were any.
pub data Deliveries (envs : ℕ → Env) (wire : Wiring) (s : Net) : ℕ → Net → Type 0 where
  rests : Deliveries envs wire s 0 s
  goes_on :
      {n : ℕ} {t u : Net} (r : Read)
      → Deliveries envs wire s n t
      → deliver envs wire r t ≡ some u
      → Deliveries envs wire s (suc n) u
  completes :
      {n : ℕ} {t u : Net} (j i : ℕ)
      → Deliveries envs wire s n t
      → finish envs wire j i t ≡ some u
      → Deliveries envs wire s n u
