-- ===== src/Tests/WireExamples.antt =====
-- The text of messages and endpoints: tests, and the properties at a concrete input.
use peerboot_cpp.Prelude.{◌≡◌, refl, arith}
use peerboot_cpp.Prelude.Int.{pos}
use peerboot_cpp.Text.{codes, is_space, str_eq}
use peerboot_cpp.Text.Decimal.{to_string}
use peerboot_cpp.Text.Tokens.{tokens}
use peerboot_cpp.Message.{update, message_text}
use peerboot_cpp.Wire.{too_few_tokens, wrong_prefix, unparseable, interpret}
use peerboot_cpp.Wire.RoundTrip.{received_line, interpret-message_text}
use peerboot_cpp.World.{undefined}
use peerboot_cpp.NetClient.{net_client_out}
use peerboot_cpp.Endpoint.{endpoint}
use peerboot_cpp.Endpoint.RoundTrip.{endpoint-node_addr}
use peerboot_cpp.Tests.Samples.{known_update}

known_text : message_text (update known_update) ≡ codes "PB01 PEER s e1 99"
unfolding message_text to_string
known_text = refl

few : interpret (codes "PB01") ≡ too_few_tokens
unfolding interpret tokens str_eq
few = refl

other_prefix : interpret (codes "HTTP PEER s e 1") ≡ wrong_prefix
unfolding interpret tokens str_eq
other_prefix = refl

other_verb : interpret (codes "PB01 GET s") ≡ unparseable
unfolding interpret tokens str_eq
other_verb = refl

interpret-message_text_example :
    interpret (message_text (update known_update)) ≡ received_line (update known_update)
unfolding is_space
interpret-message_text_example =
    interpret-message_text (update known_update) ((refl, tt), (refl, (refl, tt)), omega arith)

endpoint-node_addr_example :
    endpoint (net_client_out undefined (codes "n2") (pos 5000)).node_addr
    ≡ record { host = codes "n2"; port = pos 5000 }
endpoint-node_addr_example =
    endpoint-node_addr undefined (codes "n2") 5000 (refl, (refl, tt)) (omega arith)
