-- ===== src/NetHandler.antt =====
-- The network handlers (src/peerboot/net_handler.hpp, src/peerboot/net_handler.cpp, and the empty one
-- of src/peerboot/empty_net_handler.cpp): listening on the first free port, the background thread,
-- and accepted connections. The shell holds the handler.
pub mod Listen
pub mod Success
pub mod Accept
pub mod Callbacks
pub mod Linked
pub mod Loop
pub mod LoopThread
use peerboot_cpp.Prelude.{
  ℕ, zero, suc, ◌+◌, Bool, true, false, not, ◌||◌, [], ◌∷◌, ◌++◌, Option, none, some, if◌then◌else◌,
  min, max, List,
}
use peerboot_cpp.Prelude.Int.{ℤ, pos, negsuc, is_zero, is_negative, int_eq, ◌+ℤ◌}
use peerboot_cpp.Text.{Str}
use peerboot_cpp.Text.Decimal.{to_string}
use peerboot_cpp.World.{
  World, Env, Thread, Handler, not_started, running, joined, no_handler, empty_handler, net_handler,
  bound, listened, accepted_on, closed_handle, SockAddr, af_inet, af_inet6, other_family,
}
use peerboot_cpp.Machine.{
  M, pure, fault, ◌>>=◌, ◌>>◌, assert, act, trace, get_shell, put_shell, new_handle, new_client,
}
use peerboot_cpp.NetHandler.Loop.{minus_ebusy}
use peerboot_cpp.NetClient.{net_client_in, do_read}
use peerboot_cpp.PeboNet.{in_connection_received, listen_started}

listen_on : Env → ℕ → ℤ → M ℤ
listen_on env h port = do t ← trace; act (listened h port); pure (env.uv_listen t h port)

-- NetHandler::doBindAndListen; the result is the error of libuv, or 0.
unfoldable pub do_bind_and_listen : Env → ℤ → M ℤ
unfolding listen_on
do_bind_and_listen env port = do
  h ← new_handle
  t ← trace
  act (bound h port)
  let res = env.uv_tcp_bind t h port
  if is_zero res then listen_on env h port else pure res

-- max(min(tries, 10), 1)
abbrev pub next_ports : ℤ → ℕ
next_ports (pos tries) = max (min tries 10) 1
next_ports (negsuc n) = 1

pub started_on : Env → ℤ → M ℤ
started_on env port = do
  shell ← get_shell
  assert shell.has_pebo_net
  listen_started env port
  pure port

-- The loop of doListen: `rounds` are left, from the port `port` + `i` on; -1 if none is free.
pub listen_from : Env → ℤ → ℕ → ℕ → M ℤ
unfolding do_bind_and_listen started_on
listen_from env port zero i = pure (negsuc 0)
listen_from env port (suc rounds) i = do
  res ← do_bind_and_listen env (port +ℤ pos i)
  if is_zero res then started_on env (port +ℤ pos i) else listen_from env port rounds (i + 1)

unfoldable pub do_listen : Env → ℤ → ℤ → M ℤ
unfolding listen_from
do_listen env port tries = listen_from env port (next_ports tries) 0

abbrev pub set_thread : Thread → M (Unit {0})
set_thread thread = do shell ← get_shell; put_shell (record shell { handler = net_handler thread })

-- The result of startUvLoop is always 0. A thread that still runs cannot be assigned to.
unfoldable pub start_uv_loop : Env → Thread → M (Unit {0})
start_uv_loop env running = fault
start_uv_loop env thread = do t ← trace; assert (is_zero (env.uv_async_init t)); set_thread running

-- NetHandler::on_walk, for each handle that uv_walk visits
unfoldable pub close_handles : List ℕ → M (Unit {0})
close_handles [] = pure tt
close_handles (h ∷ rest) = act (closed_handle h) >> close_handles rest

-- The end of runLoop once uv_run has returned: a loop that is busy has all its handles closed. What
-- the thread does to its loop object is in Loop.
unfoldable pub close_loop : Env → M (Unit {0})
unfolding close_handles
close_loop env = do
  t ← trace
  if int_eq (env.uv_loop_close t) minus_ebusy then close_handles (env.uv_walk t) else pure tt

-- Stopping joins the thread, so it waits for the end of runLoop: uv_async_send and uv_stop are taken
-- to make uv_run return. Without a start `myUvAsync` is uninitialised; a thread that was joined cannot be joined again.
unfoldable pub stop_uv_loop : Env → Thread → M (Unit {0})
unfolding close_loop
stop_uv_loop env not_started = fault
stop_uv_loop env joined = fault
stop_uv_loop env running = do
  t ← trace
  assert (is_zero (env.uv_async_send t))
  close_loop env
  set_thread joined

pub start_net : Env → Thread → ℤ → ℤ → M ℤ
unfolding start_uv_loop
start_net env thread port tries = do
  actual ← do_listen env port tries
  if is_negative actual || is_zero actual
      then pure actual
      else (start_uv_loop env thread >> pure actual)

-- INetHandler::start and INetHandler::stop. The empty handler does nothing and returns 0.
unfoldable pub start_handler : Env → Handler → ℤ → ℤ → M ℤ
unfolding start_net
start_handler env no_handler port tries = fault
start_handler env empty_handler port tries = pure (pos 0)
start_handler env (net_handler thread) port tries = start_net env thread port tries

unfoldable pub stop_handler : Env → Handler → M (Unit {0})
unfolding stop_uv_loop
stop_handler env no_handler = fault
stop_handler env empty_handler = pure tt
stop_handler env (net_handler thread) = stop_uv_loop env thread

abbrev unknown_address : Str
unknown_address = b'?' ∷ []

abbrev address_text : ℕ → Option Str → Str
address_text port none = unknown_address
address_text port (some ip) = ip ++ b':' ∷ to_string (pos port)

-- NetHandler::getRemoteAddress, of the address of the peer, if there is one
unfoldable pub get_remote_address : Option SockAddr → Str
get_remote_address none = unknown_address
get_remote_address (some addr) = elim addr.family [
  | af_inet ↦ address_text addr.raw_port addr.remote_ip
  | af_inet6 ↦ address_text addr.raw_port addr.remote_ip
  | other_family ↦ unknown_address
]

accept : Env → ℕ → M (Unit {0})
unfolding in_connection_received net_client_in do_read
accept env h = do
  t ← trace
  let addr = get_remote_address (env.uv_tcp_getpeername t h)
  id ← new_client (net_client_in h addr)
  shell ← get_shell
  assert shell.has_pebo_net
  in_connection_received addr id
  do_read env id
  pure tt

-- The callback of uv_listen; the result of doRead is ignored.
unfoldable pub on_new_connection : Env → ℤ → M (Unit {0})
unfolding accept
on_new_connection env status = if is_negative status then pure tt else do
  h ← new_handle
  t ← trace
  act (accepted_on h)
  if is_negative (env.uv_accept t h) then pure tt else accept env h
