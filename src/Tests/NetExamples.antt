-- ===== src/Tests/NetExamples.antt =====
-- The connections and the PeerBoot network: tests, and the properties at a concrete input.
use peerboot_cpp.Prelude.{◌≡◌, refl, some, [], ◌∷◌, ◌++◌, arith, map}
use peerboot_cpp.Text.{codes, is_space, str_eq, split_at}
use peerboot_cpp.Text.Decimal.{to_string}
use peerboot_cpp.Text.Tokens.{tokens}
use peerboot_cpp.SortedMap.{find}
use peerboot_cpp.Store.{find_peer, find_and_update, query}
use peerboot_cpp.Types.{err_ok}
use peerboot_cpp.Message.{update, message_text}
use peerboot_cpp.Wire.RoundTrip.{received_line}
use peerboot_cpp.World.{World, Client, wrote, closing, wild}
use peerboot_cpp.NetClient.Receive.{
  handle_line, process_lines, do_process_received_buffer, append_received,
}
use peerboot_cpp.NetClient.Receive.Delivery.{append_received_message}
use peerboot_cpp.PeboNet.{do_broadcast_msg, peer_update_from_pebo_peer, do_query}
use peerboot_cpp.PeboNet.Answers.{answer, do_query_lem}
use peerboot_cpp.PeboNet.Sends.{opened, framed, writes, recipients, Sends}
use peerboot_cpp.PeboNet.Attempts.{Attempts, do_broadcast_msg-Attempts}
use peerboot_cpp.PeboNet.Broadcast.{do_broadcast_msg_lem}
use peerboot_cpp.PeboNet.Flood.{flood_ends}
use peerboot_cpp.PeboNet.Updates.{stored}
use peerboot_cpp.Tests.Samples.{broken, calm, asker, neighbour, node, known_update, new_update}

append_received_message_example :
    append_received calm 0 (some (framed (update known_update) ++ 0 ∷ 7 ∷ [])) node
    ≡ handle_line calm 0 (received_line (update known_update)) node
unfolding is_space message_text to_string
append_received_message_example =
    append_received_message calm 0 node asker (update known_update) (7 ∷ []) refl refl
      ((refl, tt), (refl, (refl, tt)), omega arith)
      (
        refl,
        (
          refl,
          (
            refl,
            (
              refl,
              (
                refl,
                (
                  refl,
                  (
                    refl,
                    (
                      refl,
                      (refl, (refl, (refl, (refl, (refl, (refl, (refl, (refl, (refl, tt))))))))),
                    ),
                  ),
                ),
              ),
            ),
          ),
        ),
      )

-- The update that the node knows is processed, and nothing else happens.
known_stored :
    peer_update_from_pebo_peer calm 0 known_update node ≡ some (tt, stored calm known_update node)
unfolding peer_update_from_pebo_peer find_and_update find_peer find str_eq
known_stored = refl

flood_ends_example :
    (w₃ : World) × (peer_update_from_pebo_peer calm 1 known_update (stored calm known_update node)
      ≡ some (tt, w₃))
    × (w₃.trace ≡ [])
    × (w₃.clients ≡ asker ∷ neighbour ∷ [])
flood_ends_example =
    flood_ends calm 0 1 known_update known_update [] node (stored calm known_update node)
      (stored calm known_update node) known_stored refl tt refl refl refl

do_broadcast_msg_lem_example :
    (w' : World) × (do_broadcast_msg calm (update new_update) (codes "me") node ≡ some (err_ok, w'))
    × Sends node w' (
        writes
          (opened node.clients)
          (framed (update new_update))
          (recipients (codes "me") node.net.peers_out))
unfolding str_eq
do_broadcast_msg_lem_example =
    do_broadcast_msg_lem calm (update new_update) (codes "me") node (λ t h b. refl) (refl, tt)

do_broadcast_msg-Attempts_example :
    (w' : World) × (do_broadcast_msg broken (update new_update) (codes "me") node
      ≡ some (err_ok, w'))
    × Attempts node w' (framed (update new_update)) (recipients (codes "me") node.net.peers_out)
unfolding str_eq
do_broadcast_msg-Attempts_example =
    do_broadcast_msg-Attempts broken (update new_update) (codes "me") node (refl, tt)

do_query_lem_example :
    (w' : World) × (do_query calm 0 (codes "s") node ≡ some (err_ok, w'))
    × Sends node w' (map (λ p. wrote 0 1 (framed (answer p))) (query node.net.store (codes "s")))
do_query_lem_example = do_query_lem calm 0 1 (codes "s") node (λ t h b. refl) refl

-- A line that is no message, and the start of another.
abbrev half_read : World
half_read = record node {
  clients = record asker { receive_buffer = codes "hello" ++ b'\n' ∷ codes "PB" } ∷ neighbour ∷ [];
}

abbrev line_read : World
line_read = record node { clients = record asker { receive_buffer = codes "PB" } ∷ neighbour ∷ [] }

half_read_done : do_process_received_buffer calm 0 half_read ≡ some (tt, line_read)
unfolding do_process_received_buffer process_lines split_at tokens
half_read_done = refl

abbrev closing_neighbour : Client
closing_neighbour = record neighbour { state = closing }

abbrev unconnected : Client
unconnected = record neighbour { stream = wild }
