-- ===== src/Sample/Peers.antt =====
-- The table of peers of the demo program (src/sample/demoapp/peers.hpp, src/sample/demoapp/peers.cpp)
-- and the callback that fills it (src/sample/demoapp/demoapp.cpp). What the callback prints is its
-- second result.
use peerboot_cpp.Prelude.{ℕ, ◌+◌, ◌-◌, ◌%◌, ◌^◌, [], ◌∷◌, ◌++◌, length, if◌then◌else◌}
use peerboot_cpp.Prelude.Int.{pos}
use peerboot_cpp.Text.{Str, codes}
use peerboot_cpp.Text.Decimal.{to_string}
use peerboot_cpp.SortedMap.{SortedMap, insert}
use peerboot_cpp.Types.{PeerInfo}

-- By endpoint; two services share the table.
abbrev pub Peers : Type 0
Peers = SortedMap PeerInfo

abbrev pub no_peers : Peers
no_peers = []

unfoldable pub add : PeerInfo → Peers → Peers
add peer peers = insert peer.endpoint peer peers

abbrev pub get_all : Peers → Peers
get_all peers = peers

-- The part of notificationCB that writes the table: a peer that is removed stays in it.
unfoldable pub register : PeerInfo → Peers → Peers
unfolding add
register peer peers = if peer.is_removed then peers else add peer peers

abbrev pub notification_text : PeerInfo → Str
notification_text peer =
    codes "Notification: "
    ++ (if peer.is_removed then codes "Removed" else codes "new    ")
    ++ codes " "
    ++ peer.service
    ++ codes " "
    ++ peer.endpoint
    ++ codes " "
    ++ to_string (pos peer.last_seen)
    ++ b'\n' ∷ []

-- `now - lastSeen`, in uint32_t
abbrev pub seconds_since : ℕ → ℕ → ℕ
seconds_since now last_seen = (now + 2 ^ 32 - last_seen) % 2 ^ 32

-- The loop of notificationCB over the table
unfoldable pub peers_text : ℕ → Peers → Str
peers_text now [] = []
peers_text now ((endpoint, peer) ∷ peers) =
    codes "  ep "
    ++ endpoint
    ++ codes " age "
    ++ to_string (pos (seconds_since now peer.last_seen))
    ++ b'\n' ∷ peers_text now peers

unfoldable pub notification_cb : ℕ → PeerInfo → PeerInfo → Peers → Peers × Str
unfolding register peers_text
notification_cb now self peer peers =
    let peers' = register peer peers in
    let all = get_all peers' in
    (
      peers',
      notification_text peer
          ++ to_string (pos (length all))
          ++ codes " peers:"
          ++ b'\n' ∷ peers_text now all,
    )
