-- ===== src/NetClient/Lifecycle.antt =====
-- The state machine of an outgoing connection.
use peerboot_cpp.Prelude.{
  ℕ, ◌≡◌, refl, true, false, none, some, [], ◌∷◌, ◌++◌, arith, get_elem?, set, get_elem?-set_self,
  set-set,
}
use peerboot_cpp.Prelude.Int.{ℤ, pos, is_zero}
use peerboot_cpp.Text.{Str}
use peerboot_cpp.Message.{Message}
use peerboot_cpp.World.{World, Env, Client, closing, wild, null, handle, outgoing, closed_handle}
use peerboot_cpp.NetClient.{close, send_message, on_write, is_shut}

-- A connection that is closing or closed takes no message: sending returns 0 and does nothing.
pub send_message_shut :
    (env : Env) (id : ℕ) (msg : Message) (w : World) (c : Client)
    → get_elem? w.clients id ≡ some c
    → is_shut c.state ≡ true
    → send_message env id msg w ≡ some (pos 0, w)
unfolding send_message
send_message_shut env id msg w c e h = ground (arith, e)

-- A message for a connection whose stream is uninitialised, as an outgoing one's is before `connect`,
-- is a fault in every state but closing and closed.
send_message_unconnected :
    (env : Env) (id : ℕ) (msg : Message) (w : World) (c : Client)
    → get_elem? w.clients id ≡ some c
    → c.stream ≡ wild
    → is_shut c.state ≡ false
    → send_message env id msg w ≡ none
unfolding send_message
send_message_unconnected env id msg w c e s h = ground (arith, e)

-- If a write that has succeeded is reported to an outgoing connection in the closing state, the
-- callback faults: it accepts that state, but no next action is foreseen in it.
on_write_closing :
    (env : Env) (id : ℕ) (w : World) (c : Client) (host : Str) (port status : ℤ)
    → get_elem? w.clients id ≡ some c
    → c.direction ≡ outgoing host port
    → c.state ≡ closing
    → is_zero status ≡ true
    → on_write env id status w ≡ none
unfolding on_write
on_write_closing env id w c host port status e d s z = ground (arith, e)

-- Closing a connection that has a stream, which libuv is not closing already, succeeds and closes the
-- handle, once; closing it again right after that succeeds and changes nothing.
close_twice :
    (env : Env) (id h : ℕ) (w : World) (c : Client)
    → get_elem? w.clients id ≡ some c
    → c.stream ≡ handle h
    → env.uv_is_closing w.trace h ≡ false
    → (w' : World) × (close env id w ≡ some (tt, w'))
      × (w'.trace ≡ w.trace ++ closed_handle h ∷ [])
      × (close env id w' ≡ some (tt, w'))
unfolding close
close_twice env id h w c e s open' =
    let c' : Client = record c { state = closing; stream = null } in
    let w' : World = record w {
      clients = set w.clients id c';
      trace = w.trace ++ closed_handle h ∷ [];
    } in
    (
      w',
      ground (arith, e),
      refl,
      ground (arith, get_elem?-set_self w.clients id c' c e, set-set w.clients id c' c'),
    )
