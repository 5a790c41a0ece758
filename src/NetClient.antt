-- ===== src/NetClient.antt =====
-- Connections (src/peerboot/net_client.hpp, src/peerboot/net_client.cpp): sending, closing, reading,
-- the outgoing connection's next action, and the callbacks of libuv, which the event loop makes one
-- at a time. The functions on a received buffer are in NetClient/Receive.
pub mod Receive
pub mod Frame
pub mod Completion
pub mod Lifecycle
pub mod Linked
pub mod Callbacks
use peerboot_cpp.Prelude.{ℕ, Bool, true, false, not, ◌&&◌, ◌||◌, [], ◌∷◌, ◌++◌, if◌then◌else◌}
use peerboot_cpp.Prelude.Int.{ℤ, pos, negsuc, is_zero, is_negative}
use peerboot_cpp.Text.{Str}
use peerboot_cpp.Text.Decimal.{to_string}
use peerboot_cpp.Message.{Message, message_text}
use peerboot_cpp.World.{
  World, Env, Client, State, Stream, Direction, Act, undefined, not_connected, connecting,
  connected, accepted, sending, sent, receiving, received, closing, closed, wild, null, handle,
  incoming, outgoing, wrote, read_started, closed_handle, connect_requested,
}
use peerboot_cpp.Machine.{
  M, pure, fault, ◌>>=◌, ◌>>◌, assert, client, put_client, act, trace, new_handle, handle_of,
}

-- NetClientIn: an accepted connection
unfoldable pub net_client_in : ℕ → Str → Client
net_client_in socket node_addr = record {
  direction = incoming;
  state = accepted;
  node_addr = node_addr;
  receive_buffer = [];
  stream = handle socket;
}

-- NetClientOut: neither `myState` nor `myUvStream` is initialised.
unfoldable pub net_client_out : State → Str → ℤ → Client
net_client_out raw_state host port = record {
  direction = outgoing host port;
  state = raw_state;
  node_addr = host ++ b':' ∷ to_string port;
  receive_buffer = [];
  stream = wild;
}

abbrev pub set_state : ℕ → State → M (Unit {0})
set_state id s = do c ← client id; put_client id (record c { state = s })

abbrev pub is_shut : State → Bool
is_shut closing = true
is_shut closed = true
is_shut _ = false

pub on_close : ℕ → M (Unit {0})
on_close id = set_state id closed

-- `close`: the handle is closed by libuv, unless that is under way already. The source's last path ends
-- without a return, which is undefined; it is taken as a return, since no caller uses the value.
close_handle : Env → ℕ → Client → ℕ → M (Unit {0})
unfolding on_close
close_handle env id c h = do
  put_client id (record c { state = closing; stream = null })
  t ← trace
  if env.uv_is_closing t h then on_close id else act (closed_handle h)

close_stream : Env → ℕ → Client → Stream → M (Unit {0})
unfolding close_handle
close_stream env id c wild = fault
close_stream env id c null = put_client id (record c { state = closing })
close_stream env id c (handle h) = close_handle env id c h

unfoldable pub close : Env → ℕ → M (Unit {0})
unfolding close_stream
close env id = do c ← client id; close_stream env id c c.stream

write_message : Env → ℕ → Client → Str → M ℤ
unfolding close
write_message env id c bytes = do
  put_client id (record c { state = sending })
  h ← handle_of c.stream
  t ← trace
  act (wrote id h bytes)
  let res = env.uv_write t h bytes
  if is_zero res then pure (pos 0) else (close env id >> pure res)

unfoldable pub send_message : Env → ℕ → Message → M ℤ
unfolding write_message
send_message env id msg = do
  c ← client id
  if is_shut c.state then pure (pos 0) else write_message env id c (message_text msg ++ b'\n' ∷ [])

abbrev pub may_read : State → Bool
may_read connected = true
may_read accepted = true
may_read sent = true
may_read sending = true
may_read receiving = true
may_read _ = false

unfoldable pub do_read : Env → ℕ → M ℤ
unfolding close
do_read env id = do
  c ← client id
  assert (may_read c.state)
  put_client id (record c { state = receiving })
  h ← handle_of c.stream
  t ← trace
  act (read_started h)
  let res = env.uv_read_start t h
  if is_negative res then (close env id >> pure res) else pure (pos 0)

-- NetClientOut::process; any other state is fatal.
process_state : Env → ℕ → State → M (Unit {0})
unfolding do_read close
process_state env id connected = do_read env id >> pure tt
process_state env id sending = do_read env id >> pure tt
process_state env id sent = do_read env id >> pure tt
process_state env id receiving = do_read env id >> pure tt
process_state env id received = close env id
process_state env id _ = fault

process_direction : Env → ℕ → State → Direction → M (Unit {0})
unfolding process_state
process_direction env id s incoming = pure tt
process_direction env id s (outgoing host port) = process_state env id s

unfoldable pub process : Env → ℕ → M (Unit {0})
unfolding process_direction
process env id = do c ← client id; process_direction env id c.state c.direction

abbrev pub may_be_written : State → Bool
may_be_written connected = true
may_be_written sending = true
may_be_written receiving = true
may_be_written received = true
may_be_written closing = true
may_be_written _ = false

unfoldable pub on_write : Env → ℕ → ℤ → M (Unit {0})
unfolding process
on_write env id status = do
  c ← client id
  assert (may_be_written c.state)
  if is_zero status then process env id else pure tt

abbrev pub is_connected_state : State → Bool
is_connected_state undefined = false
is_connected_state not_connected = false
is_connected_state connecting = false
is_connected_state closing = false
is_connected_state closed = false
is_connected_state _ = true

has_descriptor : Env → ℕ → M Bool
has_descriptor env h = do
  t ← trace
  let (res, fd) = env.uv_fileno t h
  pure (is_zero res && not (is_negative fd) && not (is_zero fd))

is_connected_on : Env → State → Stream → M Bool
unfolding has_descriptor
is_connected_on env s wild = fault
is_connected_on env s null = pure false
is_connected_on env s (handle h) = if is_connected_state s then has_descriptor env h else pure false

unfoldable pub is_connected : Env → ℕ → M Bool
unfolding is_connected_on
is_connected env id = do c ← client id; is_connected_on env c.state c.stream

-- `myState >= State::Connected && myState < Closed`
abbrev pub is_under_way : State → Bool
is_under_way connected = true
is_under_way accepted = true
is_under_way sending = true
is_under_way sent = true
is_under_way receiving = true
is_under_way received = true
is_under_way closing = true
is_under_way _ = false

request_connection : Env → ℕ → Str → ℤ → M ℤ
request_connection env h host port = do
  t ← trace
  act (connect_requested h host port)
  pure (env.uv_tcp_connect t h)

open_connection : Env → ℕ → Client → Str → ℤ → M ℤ
unfolding request_connection
open_connection env id c host port = do
  h ← new_handle
  put_client id (record c { state = connecting; stream = handle h })
  let res = env.uv_ip4_addr host port
  if is_zero res then request_connection env h host port else pure res

connect_direction : Env → ℕ → Client → Direction → M ℤ
unfolding open_connection
connect_direction env id c incoming = fault
connect_direction env id c (outgoing host port) =
    if is_under_way c.state then pure (negsuc 0) else open_connection env id c host port

-- NetClientOut::connect; an incoming connection has no such method.
unfoldable pub connect : Env → ℕ → M ℤ
unfolding connect_direction
connect env id = do c ← client id; connect_direction env id c c.direction

-- The callback of uv_tcp_connect on a handle.
unfoldable pub on_connect : Env → ℕ → ℕ → ℤ → M (Unit {0})
unfolding process
on_connect env id h status =
    if is_zero status then (set_state id connected >> process env id) else act (closed_handle h)
