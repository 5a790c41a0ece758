-- ===== src/NetHandler/Linked.antt =====
-- The methods of the network handlers, and the links of the node.
use peerboot_cpp.Prelude.{
  ℕ, zero, suc, ◌+◌, ◌<◌, ◌≡◌, ◌≢◌, some, List, [], ◌∷◌, ◌++◌, ◌||◌, arith, length,
}
use peerboot_cpp.Prelude.Int.{ℤ, pos, negsuc, is_zero, is_negative, int_eq, ◌+ℤ◌}
use peerboot_cpp.World.{
  World, Env, PeerWithId, Thread, Handler, not_started, running, joined, no_handler, empty_handler,
  net_handler, bound, listened, accepted_on, closed_handle,
}
use peerboot_cpp.Machine.{pure, act, assert, get_shell, trace, new_handle, ◌>>◌}
use peerboot_cpp.Machine.Keeps.{Keeps, then_Keeps, if_Keeps, assert-Keeps}
use peerboot_cpp.Node.Linked.{append_IsLinked, link_last, stream_at}
use peerboot_cpp.Node.Safe.{
  Kept, Kept-trans, Safe, bind-Safe, pure-Safe, fault-Safe, if-Safe, assert-Safe, act-Safe,
  trace-Safe, get_shell-Safe, put_shell-Safe, new_handle-Safe, next_IsLinked, rest_IsLinked,
}
use peerboot_cpp.NetClient.{net_client_in, do_read}
use peerboot_cpp.NetClient.Linked.{do_read-Safe}
use peerboot_cpp.PeboNet.{listen_started, in_connection_received, add_in_peer}
use peerboot_cpp.PeboNet.Linked.{listen_started-Safe, in_IsLinked}
use peerboot_cpp.NetHandler.{
  listen_on, do_bind_and_listen, next_ports, started_on, listen_from, do_listen, set_thread,
  start_uv_loop, stop_uv_loop, start_net, start_handler, stop_handler, get_remote_address, accept,
  on_new_connection, close_handles, close_loop,
}
use peerboot_cpp.NetHandler.Loop.{minus_ebusy}

listen_on-Safe : (env : Env) (h : ℕ) (port : ℤ) → Safe (listen_on env h port)
unfolding listen_on
listen_on-Safe env h port =
    bind-Safe trace _ trace-Safe λ t.
      bind-Safe (act (listened h port)) _ (act-Safe _) (λ _. pure-Safe (env.uv_listen t h port))

do_bind_and_listen-Safe : (env : Env) (port : ℤ) → Safe (do_bind_and_listen env port)
unfolding do_bind_and_listen
do_bind_and_listen-Safe env port = bind-Safe new_handle _ new_handle-Safe λ h.
    bind-Safe trace _ trace-Safe λ t. bind-Safe (act (bound h port)) _ (act-Safe _) λ _.
      let res = env.uv_tcp_bind t h port in
      if-Safe (is_zero res) (listen_on env h port) (pure res) (listen_on-Safe env h port)
        (pure-Safe res)

started_on-Safe : (env : Env) (port : ℤ) → Safe (started_on env port)
unfolding started_on
started_on-Safe env port = bind-Safe get_shell _ get_shell-Safe λ shell.
    bind-Safe (assert shell.has_pebo_net) _ (assert-Safe shell.has_pebo_net) λ _.
      bind-Safe (listen_started env port) _ (listen_started-Safe env port) (λ _. pure-Safe port)

listen_from-Safe : (env : Env) (port : ℤ) (rounds i : ℕ) → Safe (listen_from env port rounds i)
unfolding listen_from
listen_from-Safe env port zero i = pure-Safe (negsuc 0)
listen_from-Safe env port (suc rounds) i =
    bind-Safe (do_bind_and_listen env (port +ℤ pos i)) _
      (do_bind_and_listen-Safe env (port +ℤ pos i))
      λ res.
        if-Safe (is_zero res) (started_on env (port +ℤ pos i)) (listen_from env port rounds (i + 1))
          (started_on-Safe env (port +ℤ pos i)) (listen_from-Safe env port rounds (i + 1))

set_thread-Safe : (thread : Thread) → Safe (set_thread thread)
set_thread-Safe thread =
    bind-Safe get_shell _ get_shell-Safe
      (λ shell. put_shell-Safe (record shell { handler = net_handler thread }))

start_uv_loop-Safe : (env : Env) (thread : Thread) → Safe (start_uv_loop env thread)
unfolding start_uv_loop
start_uv_loop-Safe env running = fault-Safe
start_uv_loop-Safe env not_started = bind-Safe trace _ trace-Safe λ t.
    bind-Safe (assert (is_zero (env.uv_async_init t))) _ (assert-Safe _)
      (λ _. set_thread-Safe running)
start_uv_loop-Safe env joined = bind-Safe trace _ trace-Safe λ t.
    bind-Safe (assert (is_zero (env.uv_async_init t))) _ (assert-Safe _)
      (λ _. set_thread-Safe running)

start_net-Safe :
    (env : Env) (thread : Thread) (port tries : ℤ) → Safe (start_net env thread port tries)
unfolding start_net do_listen
start_net-Safe env thread port tries =
    bind-Safe (do_listen env port tries) _ (listen_from-Safe env port (next_ports tries) 0)
      λ actual.
        if-Safe (is_negative actual || is_zero actual) (pure actual)
          (start_uv_loop env thread >> pure actual) (pure-Safe actual)
          (bind-Safe (start_uv_loop env thread) _ (start_uv_loop-Safe env thread)
            (λ _. pure-Safe actual))

pub start_handler-Safe :
    (env : Env) (handler : Handler) (port tries : ℤ) → Safe (start_handler env handler port tries)
unfolding start_handler
start_handler-Safe env no_handler port tries = fault-Safe
start_handler-Safe env empty_handler port tries = pure-Safe (pos 0)
start_handler-Safe env (net_handler thread) port tries = start_net-Safe env thread port tries

close_handles-Safe : (hs : List ℕ) → Safe (close_handles hs)
unfolding close_handles
close_handles-Safe [] = pure-Safe tt
close_handles-Safe (h ∷ rest) =
    bind-Safe (act (closed_handle h)) _ (act-Safe _) (λ _. close_handles-Safe rest)

close_loop-Safe : (env : Env) → Safe (close_loop env)
unfolding close_loop
close_loop-Safe env = bind-Safe trace _ trace-Safe λ t.
    if-Safe (int_eq (env.uv_loop_close t) minus_ebusy) (close_handles (env.uv_walk t)) (pure tt)
      (close_handles-Safe (env.uv_walk t)) (pure-Safe tt)

pub stop_handler-Safe : (env : Env) (handler : Handler) → Safe (stop_handler env handler)
unfolding stop_handler stop_uv_loop
stop_handler-Safe env no_handler = fault-Safe
stop_handler-Safe env empty_handler = pure-Safe tt
stop_handler-Safe env (net_handler not_started) = fault-Safe
stop_handler-Safe env (net_handler joined) = fault-Safe
stop_handler-Safe env (net_handler running) = bind-Safe trace _ trace-Safe λ t.
    bind-Safe (assert (is_zero (env.uv_async_send t))) _ (assert-Safe _)
      λ _. bind-Safe (close_loop env) _ (close_loop-Safe env) (λ _. set_thread-Safe joined)

-- A new connection on a handle that no connection has.
accept-Keeps :
    (env : Env) (h : ℕ) (w : World)
    → h < w.next_handle
    → ((j : ℕ) → stream_at w.clients j ≢ some h)
    → Keeps Kept (accept env h) w
unfolding accept in_connection_received add_in_peer net_client_in
accept-Keeps env h w made unowned =
    let addr = get_remote_address (env.uv_tcp_getpeername w.trace h) in
    let c = net_client_in h addr in
    let u : World = record w { clients = w.clients ++ c ∷ [] } in
    let p : PeerWithId = record { node_addr = addr; peer = length w.clients } in
    let v : World = record u { net = record u.net { peers_in = u.net.peers_in ++ p ∷ [] } } in
    then_Keeps Kept Kept-trans w u _
      (append_IsLinked w c (λ k e. let q : h ≡ k = cc in rw (← q) (made, unowned)))
      (assert-Keeps Kept w.shell.has_pebo_net _ u λ _.
        then_Keeps Kept Kept-trans u v _ (in_IsLinked p (link_last w.clients c)) (
          bind-Safe (do_read env (length w.clients)) _ (do_read-Safe env (length w.clients))
            (λ _. pure-Safe tt) v))

pub on_new_connection-Safe : (env : Env) (status : ℤ) → Safe (on_new_connection env status)
unfolding on_new_connection
on_new_connection-Safe env status w =
    if_Keeps Kept (is_negative status) (pure tt) _ w (λ _. pure-Safe tt w)
      λ _ a w' e l.
        let h = w.next_handle in
        let v : World = record w { trace = w.trace ++ accepted_on h ∷ []; next_handle = h + 1 } in
        if_Keeps Kept (is_negative (env.uv_accept w.trace h)) (pure tt) (accept env h) v
          (λ _. pure-Safe tt v)
          (λ _. accept-Keeps env h v (omega arith) (λ j q. absurd (omega (arith, l.fresh j h q)))) a
          w' e (rest_IsLinked v.trace w.shell w.has_instance (next_IsLinked l))
