-- ===== src/Endpoint.antt =====
-- Endpoint (src/peerboot/endpoint.hpp, src/peerboot/endpoint.cpp): `host:port`.
pub mod RoundTrip
use peerboot_cpp.Prelude.{Option, none, some}
use peerboot_cpp.Prelude.Int.{ℤ, pos}
use peerboot_cpp.Text.{Str, split_at}
use peerboot_cpp.Text.Decimal.{stoi}

pub record Endpoint : Type 0 where
  pub host : Str
  pub port : ℤ

-- The port 0 stands for an exception of std::stoi.
port_number : Option ℤ → ℤ
port_number none = pos 0
port_number (some port) = port

-- The text before and after the first colon, if there is one.
pub endpoint_parts : Str → Option (Str × Str) → Endpoint
unfolding port_number
endpoint_parts text none = record { host = text; port = pos 0 }
endpoint_parts text (some (before, after)) = record {
  host = before;
  port = port_number (stoi after);
}

unfoldable pub endpoint : Str → Endpoint
unfolding endpoint_parts
endpoint text = endpoint_parts text (split_at b':' text)
