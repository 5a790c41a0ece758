-- ===== src/Types.antt =====
-- The public types of the library (src/include/peerboot.hpp). A service and an endpoint are byte
-- strings; a timestamp is a number of seconds since 2019, below 2 ^ 32.
use peerboot_cpp.Prelude.{ℕ, Bool}
use peerboot_cpp.Text.{Str}

pub data ErrorCode : Type 0 where
  err_ok err_generic err_lib_not_inited err_lib_already_inited : ErrorCode
  err_lib_config_error_pebo_net err_network_listen err_network_generic : ErrorCode

-- A client's peer.
pub record PeerInfo : Type 0 where
  pub service : Str
  pub endpoint : Str
  pub last_seen : ℕ
  pub is_removed : Bool
