-- ===== src/Tests/SampleExamples.antt =====
-- The sample programs, the background thread and the write requests: tests, and the properties at a
-- concrete input.
use peerboot_cpp.Prelude.{◌≡◌, refl, some, none, List, [], ◌∷◌, ◌++◌}
use peerboot_cpp.Prelude.Int.{pos}
use peerboot_cpp.Text.{Str, codes, str_eq, is_space}
use peerboot_cpp.Text.Decimal.{stoi, to_string}
use peerboot_cpp.SortedMap.{insert}
use peerboot_cpp.Message.{update}
use peerboot_cpp.PeboNet.Sends.{framed}
use peerboot_cpp.WriteRequest.{UvWriteRequest, add, message_request, HasRoom, message_request_lem}
use peerboot_cpp.Sample.Peers.{no_peers, notification_cb}
use peerboot_cpp.Sample.Args.{defaults, word_of, process_args}
use peerboot_cpp.Sample.Settings.{
  Setting, ep, peer, port, skip, arguments, settled, process_args-arguments,
}
use peerboot_cpp.Sample.Client.{get_endpoint_suffix}
use peerboot_cpp.Tests.Samples.{self, new_update}

abbrev command_line : List Setting
command_line =
    skip (codes "./peerboot_demoapp")
    ∷ ep (codes "EP2")
    ∷ port (codes "5005x")
    ∷ peer (codes "h:1")
    ∷ []

settled_at :
    settled defaults command_line
    ≡ some
        (record { end_point = codes "EP2"; pb_listen_port = pos 5005; pb_extra_peer = codes "h:1" })
unfolding stoi is_space
settled_at = refl

process_args-arguments_example :
    (process_args defaults (arguments command_line) ≡ settled defaults command_line)
    × ((word : Str)
        → process_args defaults (arguments command_line ++ word ∷ [])
          ≡ settled defaults command_line)
unfolding word_of str_eq
process_args-arguments_example = process_args-arguments defaults command_line (refl, tt)

suffix_at : get_endpoint_suffix (codes "Wed Jun 30 21:49:08 1993") ≡ codes "21:49:08"
unfolding get_endpoint_suffix
suffix_at = refl

notification_at :
    (notification_cb 100 self self no_peers).1
    ≡ codes "Notification: new     s me 90"
      ++ b'\n' ∷ codes "1 peers:"
      ++ b'\n' ∷ codes "  ep me age 10"
      ++ b'\n' ∷ []
unfolding notification_cb to_string insert
notification_at = refl

message_request_lem_example :
    (req : UvWriteRequest) × (message_request 1 (update new_update) ≡ some req)
    × (req.bufs ≡ framed (update new_update) ∷ [])
    × HasRoom req
    × ((buf : Str) → add buf req ≡ none)
message_request_lem_example = message_request_lem 1 (update new_update)
