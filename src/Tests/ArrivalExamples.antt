-- ===== src/Tests/ArrivalExamples.antt =====
-- What arrives at a node in order: the properties at a concrete input.
use peerboot_cpp.Prelude.{true, ◌≡◌, refl, some, [], ◌∷◌, ◌++◌, arith}
use peerboot_cpp.Prelude.Int.{pos}
use peerboot_cpp.Text.{codes, is_space}
use peerboot_cpp.Text.Decimal.{to_string}
use peerboot_cpp.Store.{StoredPeer, find_peer}
use peerboot_cpp.Message.{PeerUpdateMessage, update, message_text}
use peerboot_cpp.World.{World, Client, closing, null}
use peerboot_cpp.NetClient.Receive.{do_process_received_buffer, append_received, on_read}
use peerboot_cpp.NetClient.Receive.Lines.{Reads}
use peerboot_cpp.NetClient.Receive.Ready.{Ready}
use peerboot_cpp.Machine.{◌>>◌}
use peerboot_cpp.NetClient.Receive.Pieces.{on_read_pieces}
use peerboot_cpp.NetClient.Receive.Stores.{Says, append_received_stores}
use peerboot_cpp.NetClient.Receive.Total.{do_process_received_buffer_total}
use peerboot_cpp.PeboNet.Sends.{framed}
use peerboot_cpp.Tests.Samples.{calm, asker, neighbour, node, new_update}

-- An update, a query, and the start of another line.
abbrev busy_asker : Client
busy_asker = record asker {
  receive_buffer = codes "PB01 PEER s e2 5" ++ b'\n' ∷ codes "PB01 QUERY s" ++ b'\n' ∷ codes "PB";
}

abbrev busy : World
busy = record node { clients = busy_asker ∷ neighbour ∷ [] }

busy-Ready : Ready 0 1 busy
busy-Ready = record { own = refl; peers = (refl, tt); notifies = refl }

do_process_received_buffer_total_example :
    (w' : World) × (do_process_received_buffer calm 0 busy ≡ some (tt, w'))
    × Reads calm 0 busy w' busy_asker.receive_buffer
    × Ready 0 1 w'
do_process_received_buffer_total_example =
    do_process_received_buffer_total calm 0 1 busy busy_asker (λ t h b. refl) busy-Ready refl

abbrev closing_asker : Client
closing_asker = record asker { state = closing; stream = null }

-- A goodbye of a new peer is stored as a greeting.
abbrev goodbye : PeerUpdateMessage
goodbye = record new_update { is_removed = true }

node-Ready : Ready 0 1 node
node-Ready = record { own = refl; peers = (refl, tt); notifies = refl }

append_received_stores_example :
    (w' : World) × (append_received calm 0 (some (framed (update goodbye) ++ 0 ∷ 7 ∷ [])) node
      ≡ some (tt, w'))
    × ((p : StoredPeer) × (find_peer w'.net.store (codes "s") (codes "e2") ≡ some p) × Says 99 p)
unfolding is_space message_text to_string
append_received_stores_example =
    append_received_stores calm 0 1 node asker goodbye (7 ∷ []) (λ t h b. refl) node-Ready refl refl
      ((refl, tt), (refl, (refl, tt)), omega arith)
      (
        refl,
        (
          refl,
          (
            refl,
            (
              refl,
              (
                refl,
                (
                  refl,
                  (
                    refl,
                    (
                      refl,
                      (refl, (refl, (refl, (refl, (refl, (refl, (refl, (refl, (refl, tt))))))))),
                    ),
                  ),
                ),
              ),
            ),
          ),
        ),
      )

on_read_pieces_example :
    (on_read calm 0 1 (pos 7) (some (codes "PB01 QU" ++ 0 ∷ 1 ∷ []))
        >> on_read calm 0 1 (pos 4) (some ((codes "ERY" ++ b'\n' ∷ []) ++ 0 ∷ 2 ∷ [])))
      node
    ≡ on_read calm 0 1
        (pos 11)
        (some ((codes "PB01 QU" ++ codes "ERY" ++ b'\n' ∷ []) ++ 0 ∷ []))
        node
on_read_pieces_example =
    on_read_pieces calm 0 1 1 1 6 3 10 node asker (codes "PB01 QU") (codes "ERY" ++ b'\n' ∷ [])
      (1 ∷ []) (2 ∷ []) [] refl refl tt (refl, (refl, (refl, (refl, (refl, (refl, (refl, tt)))))))
      (refl, (refl, (refl, (refl, (refl, (refl, (refl, tt))))))) (refl, (refl, (refl, (refl, tt))))
