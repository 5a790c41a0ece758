-- ===== src/PeboNet/Trial.antt =====
-- One write that succeeds or fails (NetClientBase::sendMessage).
use mathlib.Core.List.{append_assoc}
use peerboot_cpp.Prelude.{
  ℕ, ◌≡◌, true, false, some, List, [], ◌∷◌, ◌++◌, arith, get_elem?, set, get_elem?-set_self,
  set-set,
}
use peerboot_cpp.Prelude.Int.{pos, is_zero}
use peerboot_cpp.World.{
  World, Env, Client, Act, sending, closing, closed, null, handle, wrote, closed_handle,
}
use peerboot_cpp.Message.{Message}
use peerboot_cpp.NetClient.{close, send_message, is_shut}
use peerboot_cpp.PeboNet.Sends.{framed}

-- A connection after an attempt to send over it, and what was done.
abbrev pub tried_world : World → ℕ → Client → List Act → World
tried_world w id c acts = record w { clients = set w.clients id c; trace = w.trace ++ acts }

module _ (env : Env) (id h : ℕ) (msg : Message) (w : World) (c : Client)
    (here : get_elem? w.clients id ≡ some c) (live : is_shut c.state ≡ false)
    (on : c.stream ≡ handle h) where
  abbrev write : Act
  write = wrote id h (framed msg)

  abbrev shut_client : Client
  shut_client = record c { state = closing; stream = null }

  pub sent_ok :
      is_zero (env.uv_write w.trace h (framed msg)) ≡ true
      → send_message env id msg w
        ≡ some (pos 0, tried_world w id (record c { state = sending }) (write ∷ []))
  unfolding send_message
  sent_ok ok = ground (arith, here, live, on, ok)

  pub sent_closes :
      is_zero (env.uv_write w.trace h (framed msg)) ≡ false
      → env.uv_is_closing (w.trace ++ write ∷ []) h ≡ false
      → send_message env id msg w
        ≡ some (
          env.uv_write w.trace h (framed msg),
          tried_world w id shut_client (write ∷ closed_handle h ∷ []),
        )
  unfolding send_message close
  sent_closes failed free = ground (
    arith,
    here,
    live,
    on,
    failed,
    free,
    get_elem?-set_self w.clients id (record c { state = sending }) c here,
    set-set w.clients id (record c { state = sending }) shut_client,
    append_assoc w.trace (write ∷ []) (closed_handle h ∷ []),
  )

  pub sent_closing :
      is_zero (env.uv_write w.trace h (framed msg)) ≡ false
      → env.uv_is_closing (w.trace ++ write ∷ []) h ≡ true
      → send_message env id msg w
        ≡ some (
          env.uv_write w.trace h (framed msg),
          tried_world w id (record shut_client { state = closed }) (write ∷ []),
        )
  unfolding send_message close
  sent_closing failed busy = ground (
    arith,
    here,
    live,
    on,
    failed,
    busy,
    get_elem?-set_self w.clients id (record c { state = sending }) c here,
    set-set w.clients id (record c { state = sending }) shut_client,
    get_elem?-set_self w.clients id shut_client c here,
    set-set w.clients id shut_client (record shut_client { state = closed }),
  )
