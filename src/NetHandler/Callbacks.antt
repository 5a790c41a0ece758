-- ===== src/NetHandler/Callbacks.antt =====
-- The static function that libuv calls for a new connection (src/peerboot/net_handler.cpp): it does
-- nothing if the `data` pointer of the server's handle is null; else that is the network handler.
use peerboot_cpp.Prelude.{Bool, true, false}
use peerboot_cpp.Prelude.Int.{ℤ}
use peerboot_cpp.World.{Env}
use peerboot_cpp.Machine.{M, pure}
use peerboot_cpp.NetHandler.{on_new_connection}

unfoldable pub static_on_new_connection : Env → Bool → ℤ → M (Unit {0})
static_on_new_connection env false status = pure tt
static_on_new_connection env true status = on_new_connection env status
