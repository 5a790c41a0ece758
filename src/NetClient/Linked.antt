-- ===== src/NetClient/Linked.antt =====
-- The methods of a connection, and the links of the node.
use peerboot_cpp.Prelude.{ℕ, ◌+◌, ◌≡◌, refl, some, get_elem?, set, ◌∷◌, [], ◌++◌}
use peerboot_cpp.Prelude.Int.{ℤ, pos, negsuc, is_zero, is_negative}
use peerboot_cpp.Text.{Str}
use peerboot_cpp.Message.{Message, message_text}
use peerboot_cpp.World.{
  World, Env, Client, State, Stream, Direction, undefined, not_connected, connecting, connected,
  accepted, sending, sent, receiving, received, closing, closed, wild, null, handle, incoming,
  outgoing, wrote, read_started, closed_handle, connect_requested,
}
use peerboot_cpp.Machine.{pure, act, trace, handle_of, ◌>>◌}
use peerboot_cpp.Machine.Keeps.{Keeps, client-Keeps, assert-Keeps, if_Keeps, done_Keeps, then_Keeps}
use peerboot_cpp.Node.Linked.{put_IsLinked, put-fresh_IsLinked}
use peerboot_cpp.Node.Safe.{
  Kept, Kept-trans, Safe, bind-Safe, pure-Safe, fault-Safe, if-Safe, handle_of-Safe, act-Safe,
  trace-Safe, put_client-Keeps, set_state-Safe,
}
use peerboot_cpp.NetClient.{
  on_close, close_handle, close_stream, close, write_message, send_message, is_shut, may_read,
  do_read, process_state, process_direction, process, may_be_written, on_write, set_state,
  is_under_way, request_connection, open_connection, connect_direction, connect, on_connect,
}

pub on_close-Safe : (id : ℕ) → Safe (on_close id)
unfolding on_close
on_close-Safe id = set_state-Safe id closed

close_stream-Keeps :
    (env : Env) (id : ℕ) (c : Client) (s : Stream) (w : World)
    → get_elem? w.clients id ≡ some c
    → Keeps Kept (close_stream env id c s) w
unfolding close_stream close_handle
close_stream-Keeps env id c wild w here = fault-Safe w
close_stream-Keeps env id c null w here =
    done_Keeps Kept w _ tt (put_IsLinked w id c (record c { state = closing }) here refl (λ h e. e))
close_stream-Keeps env id c (handle h) w here =
    put_client-Keeps id c (record c { state = closing; stream = null }) _ w here refl (λ k e. cc)
      (bind-Safe trace _ trace-Safe λ t.
        if-Safe (env.uv_is_closing t h) (on_close id) (act (closed_handle h)) (on_close-Safe id)
          (act-Safe (closed_handle h)))

pub close-Safe : (env : Env) (id : ℕ) → Safe (close env id)
unfolding close
close-Safe env id w =
    client-Keeps Kept id (λ c. close_stream env id c c.stream) w
      (λ c here. close_stream-Keeps env id c c.stream w here)

write_message-Keeps :
    (env : Env) (id : ℕ) (c : Client) (bytes : Str) (w : World)
    → get_elem? w.clients id ≡ some c
    → Keeps Kept (write_message env id c bytes) w
unfolding write_message
write_message-Keeps env id c bytes w here =
    put_client-Keeps id c (record c { state = sending }) _ w here refl (λ h e. e)
      (bind-Safe (handle_of c.stream) _ (handle_of-Safe c.stream) λ h.
        bind-Safe trace _ trace-Safe λ t. bind-Safe (act (wrote id h bytes)) _ (act-Safe _) λ _.
          if-Safe (is_zero (env.uv_write t h bytes)) (pure (pos 0))
            (close env id >> pure (env.uv_write t h bytes)) (pure-Safe (pos 0))
            (bind-Safe (close env id) _ (close-Safe env id) (λ _. pure-Safe _)))

pub send_message-Safe : (env : Env) (id : ℕ) (msg : Message) → Safe (send_message env id msg)
unfolding send_message
send_message-Safe env id msg w = client-Keeps Kept id _ w λ c here.
    let bytes = message_text msg ++ b'\n' ∷ [] in
    if_Keeps Kept (is_shut c.state) (pure (pos 0)) (write_message env id c bytes) w
      (λ _. pure-Safe (pos 0) w) (λ _. write_message-Keeps env id c bytes w here)

pub do_read-Safe : (env : Env) (id : ℕ) → Safe (do_read env id)
unfolding do_read
do_read-Safe env id w = client-Keeps Kept id _ w λ c here.
    assert-Keeps Kept (may_read c.state) _ w λ _.
      put_client-Keeps id c (record c { state = receiving }) _ w here refl (λ h e. e)
        (bind-Safe (handle_of c.stream) _ (handle_of-Safe c.stream) λ h.
          bind-Safe trace _ trace-Safe λ t. bind-Safe (act (read_started h)) _ (act-Safe _) λ _.
            if-Safe (is_negative (env.uv_read_start t h))
              (close env id >> pure (env.uv_read_start t h)) (pure (pos 0))
              (bind-Safe (close env id) _ (close-Safe env id) (λ _. pure-Safe _))
              (pure-Safe (pos 0)))

read_then-Safe : (env : Env) (id : ℕ) → Safe (do_read env id >> pure tt)
read_then-Safe env id = bind-Safe (do_read env id) _ (do_read-Safe env id) (λ _. pure-Safe tt)

process_state-Safe : (env : Env) (id : ℕ) (s : State) → Safe (process_state env id s)
unfolding process_state
process_state-Safe env id connected = read_then-Safe env id
process_state-Safe env id sending = read_then-Safe env id
process_state-Safe env id sent = read_then-Safe env id
process_state-Safe env id receiving = read_then-Safe env id
process_state-Safe env id received = close-Safe env id
process_state-Safe env id undefined = fault-Safe
process_state-Safe env id not_connected = fault-Safe
process_state-Safe env id connecting = fault-Safe
process_state-Safe env id accepted = fault-Safe
process_state-Safe env id closing = fault-Safe
process_state-Safe env id closed = fault-Safe

process_direction-Safe :
    (env : Env) (id : ℕ) (s : State) (d : Direction) → Safe (process_direction env id s d)
unfolding process_direction
process_direction-Safe env id s incoming = pure-Safe tt
process_direction-Safe env id s (outgoing host port) = process_state-Safe env id s

pub process-Safe : (env : Env) (id : ℕ) → Safe (process env id)
unfolding process
process-Safe env id w =
    client-Keeps Kept id _ w (λ c _. process_direction-Safe env id c.state c.direction w)

pub on_write-Safe : (env : Env) (id : ℕ) (status : ℤ) → Safe (on_write env id status)
unfolding on_write
on_write-Safe env id status w = client-Keeps Kept id _ w λ c _.
    assert-Keeps Kept (may_be_written c.state) _ w λ _.
      if-Safe (is_zero status) (process env id) (pure tt) (process-Safe env id) (pure-Safe tt) w

pub on_connect-Safe : (env : Env) (id h : ℕ) (status : ℤ) → Safe (on_connect env id h status)
unfolding on_connect
on_connect-Safe env id h status =
    if-Safe (is_zero status) (set_state id connected >> process env id) (act (closed_handle h))
      (bind-Safe (set_state id connected) _ (set_state-Safe id connected)
        (λ _. process-Safe env id))
      (act-Safe (closed_handle h))

request_connection-Safe :
    (env : Env) (h : ℕ) (host : Str) (port : ℤ) → Safe (request_connection env h host port)
unfolding request_connection
request_connection-Safe env h host port = bind-Safe trace _ trace-Safe λ t.
    bind-Safe (act (connect_requested h host port)) _ (act-Safe _)
      (λ _. pure-Safe (env.uv_tcp_connect t h))

-- The new handle and the connection that gets it.
open_connection-Keeps :
    (env : Env) (id : ℕ) (c : Client) (host : Str) (port : ℤ) (w : World)
    → get_elem? w.clients id ≡ some c
    → Keeps Kept (open_connection env id c host port) w
unfolding open_connection
open_connection-Keeps env id c host port w here =
    let c' : Client = record c { state = connecting; stream = handle w.next_handle } in
    let v : World = record w { clients = set w.clients id c'; next_handle = w.next_handle + 1 } in
    then_Keeps Kept Kept-trans w v _ (put-fresh_IsLinked w id c c' here refl refl) (
      if-Safe (is_zero (env.uv_ip4_addr host port)) (request_connection env w.next_handle host port)
        (pure (env.uv_ip4_addr host port)) (request_connection-Safe env w.next_handle host port)
        (pure-Safe _) v)

connect_direction-Keeps :
    (env : Env) (id : ℕ) (c : Client) (d : Direction) (w : World)
    → get_elem? w.clients id ≡ some c
    → Keeps Kept (connect_direction env id c d) w
unfolding connect_direction
connect_direction-Keeps env id c incoming w here = fault-Safe w
connect_direction-Keeps env id c (outgoing host port) w here =
    if_Keeps Kept (is_under_way c.state) (pure (negsuc 0)) (open_connection env id c host port) w
      (λ _. pure-Safe (negsuc 0) w) (λ _. open_connection-Keeps env id c host port w here)

pub connect-Safe : (env : Env) (id : ℕ) → Safe (connect env id)
unfolding connect
connect-Safe env id w =
    client-Keeps Kept id _ w (λ c here. connect_direction-Keeps env id c c.direction w here)
