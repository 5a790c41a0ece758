-- ===== src/NetClient/Receive/Lines.antt =====
-- The lines that the loop over a received buffer hands on.
use peerboot_cpp.Prelude.{
  ℕ, zero, suc, ◌+◌, ◌≡◌, refl, ap, sym, ◌∙◌, Option, none, some, List, [], ◌∷◌, arith, get_elem?,
  length, Option-cases, inl, inr,
}
use peerboot_cpp.Text.{Str, split_at}
use peerboot_cpp.Wire.{interpret}
use peerboot_cpp.Wire.Frames.{lines_from, rest_from, cut_none, cut_some}
use peerboot_cpp.World.{World, Env, Client}
use peerboot_cpp.Machine.Keeps.{bind-eq-some}
use peerboot_cpp.NetClient.Receive.{handle_line, process_lines, do_process_received_buffer, on_read}
use peerboot_cpp.Prelude.Int.{pos}
use peerboot_cpp.NetClient.Receive.Loop.{
  process_lines-none, process_lines-some, process_lines_missing, buffer_of, buffer, taken,
  buffer-handled,
}

-- The loop from `w` to `w'` hands on the lines one after the other: each round takes a line off the
-- connection's buffer, and then does what the line asks for.
pub data Handles (env : Env) (id : ℕ) (w' : World) : World → List Str → Type 0 where
  none_left : {w : World} → w ≡ w' → Handles env id w' w []
  one_more :
      {w : World} {ls : List Str} (c : Client) (line rest : Str) (v : World)
      → get_elem? w.clients id ≡ some c
      → handle_line env id (interpret line) (taken w id c rest) ≡ some (tt, v)
      → Handles env id w' v ls
      → Handles env id w' w (line ∷ ls)

-- What the loop is to do from `w` with the bytes `s` in the buffer.
pub record Reads (env : Env) (id : ℕ) (w w' : World) (s : Str) : Type 0 where
  pub handles : Handles env id w' w (lines_from [] s)
  pub remains : buffer w' id ≡ rest_from [] s

module _ (env : Env) (fuel id : ℕ) (w w' : World)
    (later : (v : World)
      → process_lines env fuel id v ≡ some (tt, w')
      → Reads env id v w' (buffer v id)) where
  round-Reads :
      (c : Client) (o : Option (Str × Str))
      → get_elem? w.clients id ≡ some c
      → split_at b'\n' c.receive_buffer ≡ o
      → process_lines env (suc fuel) id w ≡ some (tt, w')
      → Reads env id w w' c.receive_buffer
  round-Reads c none e s h =
      let stays : w ≡ w' = cc (process_lines-none env fuel id w c e s) in
      let cut = cut_none [] c.receive_buffer s in
      record {
        handles = rw cut.0 (none_left stays);
        remains = rw cut.1 (rw (← stays) (ap buffer_of e));
      }
  round-Reads c (some (line, rest)) e s h =
      let (_, v, first, then') =
        bind-eq-some (handle_line env id (interpret line)) (λ _. process_lines env fuel id)
          (taken w id c rest) w' tt (sym (process_lines-some env fuel id w c line rest e s) ∙ h) in
      let r = rw (buffer-handled env id w v c (interpret line) rest e first) at (later v then') in
      let cut = cut_some [] c.receive_buffer line rest s in
      record {
        handles = rw cut.0 (one_more c line rest v e first r.handles);
        remains = rw cut.1 r.remains;
      }

pub process_lines-Reads :
    (env : Env) (fuel id : ℕ) (w w' : World)
    → process_lines env fuel id w ≡ some (tt, w')
    → Reads env id w w' (buffer w id)
unfolding process_lines
process_lines-Reads env zero id w w' h = cc
process_lines-Reads env (suc fuel) id w w' h = elim (Option-cases (get_elem? w.clients id)) [
  | inl e ↦ cc (process_lines_missing env (suc fuel) id w e)
  | inr (c, e) ↦ rw e (
      round-Reads env fuel id w w' (λ v. process_lines-Reads env fuel id v w') c
        (split_at b'\n' c.receive_buffer) e refl h)
]

-- Whenever processing the received buffer succeeds, each complete line of the buffer has been handed
-- on once, in order, and what stands behind the last newline is left in the buffer.
pub do_process_received_buffer-Reads :
    (env : Env) (id : ℕ) (w w' : World) (c : Client)
    → get_elem? w.clients id ≡ some c
    → do_process_received_buffer env id w ≡ some (tt, w')
    → Reads env id w w' c.receive_buffer
unfolding do_process_received_buffer
do_process_received_buffer-Reads env id w w' c e h =
    rw e at (process_lines-Reads env (length c.receive_buffer + 1) id w w' (rw (e) at h))

-- How many bytes were read has no influence, as long as it is more than none: the buffer's memory is
-- read up to its first zero byte, be that before or behind the bytes that arrived.
on_read-ne_zero :
    (env : Env) (id h m n : ℕ) (base : Option Str) (w : World)
    → on_read env id h (pos (suc m)) base w ≡ on_read env id h (pos (suc n)) base w
unfolding on_read
on_read-ne_zero env id h m n base w = ground arith
