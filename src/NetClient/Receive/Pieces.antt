-- ===== src/NetClient/Receive/Pieces.antt =====
-- A line that arrives in pieces.
use mathlib.Core.List.{append_assoc}
use native.Mathlib.Numerals.{add-one}
use peerboot_cpp.Prelude.{
  ℕ, suc, ◌+◌, ◌≡◌, ap, sym, ◌∙◌, some, ◌∷◌, ◌++◌, arith, get_elem?, set-set, get_elem?-set_self,
  length, All-append,
}
use peerboot_cpp.Text.{Str}
use peerboot_cpp.Text.Cut.{Without, split_at-Without}
use peerboot_cpp.World.{World, Env, Client, incoming}
use peerboot_cpp.Machine.{◌>>◌, continue}
use peerboot_cpp.NetClient.Receive.{
  append_received, do_process_received_buffer, process_lines, on_read,
}
use peerboot_cpp.NetClient.{process}
use peerboot_cpp.Prelude.Int.{pos}
use peerboot_cpp.NetClient.Receive.Loop.{process_lines-none}
use peerboot_cpp.NetClient.Receive.Delivery.{filled, c_string-append}

module _ (env : Env) (id : ℕ) where
  -- The bytes before the first zero byte are put behind those in the buffer.
  append_received-filled :
      (w : World) (c : Client) (s junk : Str)
      → get_elem? w.clients id ≡ some c
      → Without 0 s
      → append_received env id (some (s ++ 0 ∷ junk)) w
        ≡ process_lines env
            (length (c.receive_buffer ++ s) + 1)
            id
            (filled w id c (c.receive_buffer ++ s))
  unfolding append_received do_process_received_buffer
  append_received-filled w c s junk here zeros = ground (
    arith,
    c_string-append s junk zeros,
    here,
    get_elem?-set_self w.clients id (record c { receive_buffer = c.receive_buffer ++ s }) c here,
  )

  -- Without a newline there is nothing to do yet.
  no_line :
      (w : World) (c : Client) (s junk : Str)
      → get_elem? w.clients id ≡ some c
      → Without 0 s
      → Without b'\n' (c.receive_buffer ++ s)
      → append_received env id (some (s ++ 0 ∷ junk)) w
        ≡ some (tt, filled w id c (c.receive_buffer ++ s))
  no_line w c s junk here zeros n =
      let s₁ = c.receive_buffer ++ s in
      let c₁ : Client = record c { receive_buffer = s₁ } in
      append_received-filled w c s junk here zeros
      ∙ ap (λ k. process_lines env k id (filled w id c s₁)) (add-one (length s₁))
      ∙ process_lines-none env (length s₁) id (filled w id c s₁) c₁
          (get_elem?-set_self w.clients id c₁ c here) (split_at-Without b'\n' s₁ n)

  pieces_join :
      (w : World) (c : Client) (a b junk junk' : Str)
      → get_elem? w.clients id ≡ some c
      → Without 0 a
      → Without 0 b
      → append_received env id (some (b ++ 0 ∷ junk)) (filled w id c (c.receive_buffer ++ a))
        ≡ append_received env id (some ((a ++ b) ++ 0 ∷ junk')) w
  pieces_join w c a b junk junk' here za zb =
      let s₁ = c.receive_buffer ++ a in
      let c₁ : Client = record c { receive_buffer = s₁ } in
      append_received-filled (filled w id c s₁) c₁ b junk
        (get_elem?-set_self w.clients id c₁ c here) zb
      ∙ ap (λ cs. process_lines env (length (s₁ ++ b) + 1) id (record w { clients = cs }))
          (set-set w.clients id c₁ (record c { receive_buffer = s₁ ++ b }))
      ∙ ap (λ s. process_lines env (length s + 1) id (filled w id c s))
          (append_assoc c.receive_buffer a b)
      ∙ sym (append_received-filled w c (a ++ b) junk' here (All-append _ a b za zb))

  -- At an accepted connection nothing follows a read.
  accepted_process :
      (w : World) (c : Client) (s : Str)
      → get_elem? w.clients id ≡ some c
      → c.direction ≡ incoming
      → process env id (filled w id c s) ≡ some (tt, filled w id c s)
  unfolding process
  accepted_process w c s here accepts =
      ground
        (arith, get_elem?-set_self w.clients id (record c { receive_buffer = s }) c here, accepts)

  -- A read of some bytes
  on_read-bytes :
      (h n : ℕ) (w : World) (bytes : Str)
      → on_read env id h (pos (suc n)) (some bytes) w
        ≡ continue (append_received env id (some bytes) w) (λ _. process env id)
  unfolding on_read
  on_read-bytes h n w bytes = ground arith

  -- The first read of a piece without a newline
  first_read :
      (h n : ℕ) (w : World) (c : Client) (a junk : Str)
      → get_elem? w.clients id ≡ some c
      → c.direction ≡ incoming
      → Without 0 a
      → Without b'\n' (c.receive_buffer ++ a)
      → on_read env id h (pos (suc n)) (some (a ++ 0 ∷ junk)) w
        ≡ some (tt, filled w id c (c.receive_buffer ++ a))
  first_read h n w c a junk here accepts za na =
      on_read-bytes h n w (a ++ 0 ∷ junk)
      ∙ ap (λ o. continue o (λ _. process env id)) (no_line w c a junk here za na)
      ∙ accepted_process w c (c.receive_buffer ++ a) here accepts

  -- The second read of two
  second_read :
      (h n h' n' : ℕ) (w : World) (c : Client) (a b junk junk' : Str)
      → get_elem? w.clients id ≡ some c
      → Without 0 a
      → Without 0 b
      → on_read env id h
          (pos (suc n))
          (some (b ++ 0 ∷ junk))
          (filled w id c (c.receive_buffer ++ a))
        ≡ on_read env id h' (pos (suc n')) (some ((a ++ b) ++ 0 ∷ junk')) w
  second_read h n h' n' w c a b junk junk' here za zb =
      on_read-bytes h n (filled w id c (c.receive_buffer ++ a)) (b ++ 0 ∷ junk)
      ∙ ap (λ o. continue o (λ _. process env id)) (pieces_join w c a b junk junk' here za zb)
      ∙ sym (on_read-bytes h' n' w ((a ++ b) ++ 0 ∷ junk'))

-- At an accepted connection it makes no difference how the bytes of a line are cut into reads: two reads
-- one after the other, where neither the receive buffer nor the first piece has a newline, do what one
-- read of the joined bytes does, whatever the line asks for and also if it fails. (In each read a zero
-- byte stands right behind the bytes that arrived, and the pieces have no zero byte; what the memory
-- holds behind the zero bytes, and the lengths that libuv reports, do not matter.)
pub on_read_pieces :
    (env : Env) (id h h' h'' n n' n'' : ℕ) (w : World) (c : Client) (a b junk junk' junk'' : Str)
    → get_elem? w.clients id ≡ some c
    → c.direction ≡ incoming
    → Without b'\n' c.receive_buffer
    → Without b'\n' a
    → Without 0 a
    → Without 0 b
    → (on_read env id h (pos (suc n)) (some (a ++ 0 ∷ junk))
          >> on_read env id h' (pos (suc n')) (some (b ++ 0 ∷ junk')))
        w
      ≡ on_read env id h'' (pos (suc n'')) (some ((a ++ b) ++ 0 ∷ junk'')) w
on_read_pieces env id h h' h'' n n' n'' w c a b junk junk' junk'' here accepts empty na za zb =
    ap (λ o. continue o (λ _. on_read env id h' (pos (suc n')) (some (b ++ 0 ∷ junk'))))
      (first_read env id h n w c a junk here accepts za (All-append _ c.receive_buffer a empty na))
    ∙ second_read env id h' n' h'' n'' w c a b junk' junk'' here za zb
