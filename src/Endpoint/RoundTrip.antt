-- ===== src/Endpoint/RoundTrip.antt =====
-- An endpoint's text and its parts.
use peerboot_cpp.Prelude.{ℕ, ◌<◌, ◌^◌, ◌≡◌, ap, ◌∙◌, ◌∷◌, ◌++◌, arith, lt→ltb}
use peerboot_cpp.Prelude.Int.{pos}
use peerboot_cpp.Text.{Str}
use peerboot_cpp.Text.Cut.{Without, split_at-Without, split_at-append}
use peerboot_cpp.Text.Decimal.{to_string, stoi-to_string}
use peerboot_cpp.World.{State}
use peerboot_cpp.NetClient.{net_client_out}
use peerboot_cpp.Endpoint.{endpoint, endpoint_parts}

-- The address that an outgoing connection has for its host and port is read back as that host and
-- port, if the host has no colon and the port is a number below 2 ^ 31.
pub endpoint-node_addr :
    (raw_state : State) (host : Str) (port : ℕ)
    → Without b':' host
    → port < 2 ^ 31
    → endpoint (net_client_out raw_state host (pos port)).node_addr
      ≡ record { host = host; port = pos port }
unfolding endpoint net_client_out
endpoint-node_addr raw_state host port h lt =
    ap (endpoint_parts (host ++ b':' ∷ to_string (pos port)))
      (split_at-append b':' host (to_string (pos port)) h)
    ∙ rw (stoi-to_string port (omega arith)) (rw (lt→ltb port (2 ^ 31) lt))

-- A text with no colon is a host with the port 0.
pub endpoint_no_colon :
    (text : Str) → Without b':' text → endpoint text ≡ record { host = text; port = pos 0 }
unfolding endpoint
endpoint_no_colon text h = rw (split_at-Without b':' text h)
