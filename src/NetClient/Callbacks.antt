-- ===== src/NetClient/Callbacks.antt =====
-- The static functions of the connections that libuv calls (src/peerboot/net_client.cpp): each finds
-- the object by the `data` pointer of the handle or the request, and does nothing if that is null. An
-- object is a connection's position; a write request keeps its own pointer.
use peerboot_cpp.Prelude.{ℕ, Option, none, some, min}
use peerboot_cpp.Prelude.Int.{ℤ}
use peerboot_cpp.Text.{Str}
use peerboot_cpp.World.{Env}
use peerboot_cpp.Machine.{M, pure}
use peerboot_cpp.NetClient.{on_close, on_write, on_connect}
use peerboot_cpp.NetClient.Receive.{on_read}

unfoldable pub static_on_close : Option ℕ → M (Unit {0})
static_on_close none = pure tt
static_on_close (some id) = on_close id

-- `req->data`, and the `uvSocket` of the request
unfoldable pub static_on_write : Env → Option (Option ℕ) → ℤ → M (Unit {0})
static_on_write env none status = pure tt
static_on_write env (some none) status = pure tt
static_on_write env (some (some id)) status = on_write env id status

unfoldable pub static_on_read : Env → Option ℕ → ℕ → ℤ → Option Str → M (Unit {0})
static_on_read env none h nread base = pure tt
static_on_read env (some id) h nread base = on_read env id h nread base

unfoldable pub static_on_connect : Env → Option ℕ → ℕ → ℤ → M (Unit {0})
static_on_connect env none h status = pure tt
static_on_connect env (some id) h status = on_connect env id h status

-- The length of the buffer that `alloc_buffer` makes. Its bytes are uninitialised.
unfoldable pub alloc_buffer : ℕ → ℕ
alloc_buffer suggested_size = min suggested_size 16384
