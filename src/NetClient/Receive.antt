-- ===== src/NetClient/Receive.antt =====
-- The received bytes of a connection: appending a buffer, cutting it into lines, and handing each
-- message to the PeerBoot network.
pub mod Loop
pub mod Lines
pub mod Delivery
pub mod Ready
pub mod Total
pub mod Stores
pub mod Pieces
pub mod Linked
pub mod Outgoing
use peerboot_cpp.Prelude.{
  ℕ, zero, suc, ◌+◌, Bool, true, false, List, [], ◌∷◌, ◌++◌, Option, none, some, ◌==◌,
  if◌then◌else◌, length,
}
use peerboot_cpp.Prelude.Int.{ℤ, is_zero, is_negative}
use peerboot_cpp.Text.{Str, split_at}
use peerboot_cpp.Message.{Message, peer_update_message, query_message}
use peerboot_cpp.Wire.{
  Line, too_few_tokens, wrong_prefix, unparseable, peer_line, query_line, interpret,
}
use peerboot_cpp.World.{World, Env, Client, received, closed_handle}
use peerboot_cpp.Machine.{M, pure, fault, ◌>>=◌, ◌>>◌, or_fault, client, put_client, act}
use peerboot_cpp.NetClient.{set_state, process}
use peerboot_cpp.PeboNet.{clock, msg_from_pebo_peer}

-- One line. The removal flag of a received update is always false.
unfoldable pub handle_line : Env → ℕ → Line → M (Unit {0})
unfolding msg_from_pebo_peer peer_update_message query_message
handle_line env id (peer_line service endpoint last_seen) = do
  set_state id received
  t ← clock env
  msg_from_pebo_peer env id (peer_update_message t service endpoint last_seen false 0)
handle_line env id (query_line service) = do
  set_state id received
  t ← clock env
  msg_from_pebo_peer env id (query_message t service 0)
handle_line env id _ = pure tt

-- The loop of doProcessReceivedBuffer: each round takes one line off the buffer. The bytes of the
-- buffer, and one more, are enough fuel.
unfoldable pub process_lines : Env → ℕ → ℕ → M (Unit {0})
unfolding handle_line interpret
process_lines env zero id = fault
process_lines env (suc fuel) id = do
  c ← client id
  elim (split_at b'\n' c.receive_buffer) [
    | none ↦ pure tt
    | some (line, rest) ↦ do
      put_client id (record c { receive_buffer = rest })
      handle_line env id (interpret line)
      process_lines env fuel id
  ]

unfoldable pub do_process_received_buffer : Env → ℕ → M (Unit {0})
unfolding process_lines
do_process_received_buffer env id = do
  c ← client id
  process_lines env (length c.receive_buffer + 1) id

-- `string(buf->base)`: the bytes before the first zero byte. Without one in the buffer the read runs
-- past its end, which is undefined.
unfoldable pub c_string : Str → Option Str
c_string [] = none
c_string (b ∷ bytes) =
    if b == 0 then some [] else elim (c_string bytes) [ none ↦ none | some s ↦ some (b ∷ s) ]

pub append_received : Env → ℕ → Option Str → M (Unit {0})
unfolding c_string do_process_received_buffer
append_received env id none = pure tt
append_received env id (some base) = do
  s ← or_fault (c_string base)
  c ← client id
  put_client id (record c { receive_buffer = c.receive_buffer ++ s })
  do_process_received_buffer env id

-- The callback of uv_read_start on a handle: `nread`, and the whole memory of the buffer, if any.
unfoldable pub on_read : Env → ℕ → ℕ → ℤ → Option Str → M (Unit {0})
unfolding append_received process
on_read env id h nread base =
    if is_negative nread
    then act (closed_handle h)
    else if is_zero nread
    then pure tt
    else (append_received env id base >> process env id)
