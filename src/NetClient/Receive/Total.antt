-- ===== src/NetClient/Receive/Total.antt =====
-- The loop over a received buffer in a node in order (src/peerboot/net_client.cpp).
use peerboot_cpp.Prelude.{
  ℕ, zero, suc, ◌<◌, ◌≡◌, refl, ◌∙◌, Option, none, some, arith, get_elem?, length, ◌+◌,
}
use peerboot_cpp.Text.{Str, split_at}
use peerboot_cpp.Wire.{interpret}
use peerboot_cpp.World.{World, Env, Client}
use peerboot_cpp.PeboNet.Sends.{WritesSucceed}
use peerboot_cpp.NetClient.Receive.{process_lines, do_process_received_buffer}
use peerboot_cpp.NetClient.Receive.Lines.{Reads, do_process_received_buffer-Reads}
use peerboot_cpp.NetClient.Receive.Loop.{
  split_at-length, process_lines-none, process_lines-some, buffer, taken, buffer-handled,
}
use peerboot_cpp.NetClient.Receive.Ready.{Ready, Goes, Ready-set, own_client, handle_line-Goes}

module _ (env : Env) (id h : ℕ) (ok : WritesSucceed env) where
  -- One round, and the rest by induction.
  round-Goes :
      (fuel : ℕ) (w : World) (c : Client) (o : Option (Str × Str))
      → ((v : World)
          → length (buffer v id) < fuel
          → Ready id h v
          → Goes id h (process_lines env fuel id v))
      → get_elem? w.clients id ≡ some c
      → split_at b'\n' c.receive_buffer ≡ o
      → length c.receive_buffer < suc fuel
      → Ready id h w
      → Goes id h (process_lines env (suc fuel) id w)
  round-Goes fuel w c none later e s enough r = (w, process_lines-none env fuel id w c e s, r)
  round-Goes fuel w c (some (line, rest)) later e s enough r =
      let (v, first, r₁) =
        handle_line-Goes env id h ok (interpret line) (taken w id c rest)
          (Ready-set id h w c (record c { receive_buffer = rest }) e refl refl r) in
      let b = buffer-handled env id w v c (interpret line) rest e first in
      let shorter = split_at-length b'\n' c.receive_buffer line rest s in
      let (w', then', r₂) = later v (rw b (omega (arith, enough, shorter))) r₁ in
      (w', process_lines-some env fuel id w c line rest e s ∙ rw first then', r₂)

  process_lines-Goes :
      (fuel : ℕ) (w : World)
      → length (buffer w id) < fuel
      → Ready id h w
      → Goes id h (process_lines env fuel id w)
  process_lines-Goes zero w enough r = absurd (omega arith)
  process_lines-Goes (suc fuel) w enough r =
      let (c, e, o) = own_client id h w r in
      round-Goes fuel w c (split_at b'\n' c.receive_buffer) (process_lines-Goes fuel) e refl
        (rw e at enough) r

-- In a node in order whose writes succeed, processing the received buffer of a connection succeeds,
-- whatever bytes it holds: each complete line is handed on once, in order, what stands behind the
-- last newline stays in the buffer, and the node is still in order.
pub do_process_received_buffer_total :
    (env : Env) (id h : ℕ) (w : World) (c : Client)
    → WritesSucceed env
    → Ready id h w
    → get_elem? w.clients id ≡ some c
    → (w' : World) × (do_process_received_buffer env id w ≡ some (tt, w'))
      × Reads env id w w' c.receive_buffer
      × Ready id h w'
unfolding do_process_received_buffer
do_process_received_buffer_total env id h w c ok r e =
    let (w', done, r') =
      process_lines-Goes env id h ok (length c.receive_buffer + 1) w (rw e (omega arith)) r in
    let all : do_process_received_buffer env id w ≡ some (tt, w') = rw e done in
    (w', all, do_process_received_buffer-Reads env id w w' c e all, r')
