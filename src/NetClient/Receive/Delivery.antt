-- ===== src/NetClient/Receive/Delivery.antt =====
-- What one node writes is what another node's connection reads.
use peerboot_cpp.Prelude.{
  ℕ, suc, ◌+◌, ◌≡◌, refl, ap, sym, ◌∙◌, some, [], ◌∷◌, ◌++◌, arith, get_elem?, set,
  get_elem?-set_self, set-set, set-get_elem?, length, length-append, Option-cases, inl, inr,
  All-append, All-map,
}
use native.Mathlib.Numerals.{add-one}
use peerboot_cpp.Prelude.Int.{pos}
use peerboot_cpp.Text.{Str, is_space, split_at}
use peerboot_cpp.Text.Cut.{Without, split_at-append}
use peerboot_cpp.Text.Tokens.{IsWord, NoSpace}
use peerboot_cpp.Text.Decimal.{to_string, to_string-IsWord}
use peerboot_cpp.Wire.{interpret}
use peerboot_cpp.Wire.RoundTrip.{IsPrintable, received_line, interpret-message_text}
use peerboot_cpp.World.{World, Env, Client}
use peerboot_cpp.Machine.{◌>>◌}
use peerboot_cpp.Machine.Keeps.{bind_idle}
use peerboot_cpp.Message.{Message, update, query, message_text, ◌␣◌, prefix, peer_verb, query_verb}
use peerboot_cpp.NetClient.Frame.{core}
use peerboot_cpp.NetClient.Receive.{
  handle_line, process_lines, do_process_received_buffer, append_received, c_string,
}
use peerboot_cpp.NetClient.Receive.Loop.{
  process_lines-none, process_lines-some, handle_line-Cores, taken, buffer_of, Cores-buffer,
}
use peerboot_cpp.PeboNet.Sends.{framed}

-- A word has no newline.
NoSpace-Without : (s : Str) → NoSpace s → Without b'\n' s
unfolding is_space
NoSpace-Without s h = All-map _ _ s (λ x e. ground arith) h

IsWord-Without : (s : Str) → IsWord s → Without b'\n' s
IsWord-Without [] h = tt
IsWord-Without (x ∷ s) h = NoSpace-Without (x ∷ s) h

Without-space : (s t : Str) → Without b'\n' s → Without b'\n' t → Without b'\n' (s ␣ t)
Without-space s t h k = All-append _ s (b' ' ∷ t) h (refl, k)

-- The text of a printable message is one line.
message_text-Without : (m : Message) → IsPrintable m → Without b'\n' (message_text m)
unfolding message_text
message_text-Without (update m) (hs, he, _) =
    Without-space prefix (peer_verb ␣ m.service ␣ m.endpoint ␣ to_string (pos m.last_seen))
      (refl, (refl, (refl, (refl, tt))))
      (Without-space peer_verb (m.service ␣ m.endpoint ␣ to_string (pos m.last_seen))
        (refl, (refl, (refl, (refl, tt))))
        (Without-space m.service (m.endpoint ␣ to_string (pos m.last_seen))
          (IsWord-Without m.service hs)
          (Without-space m.endpoint (to_string (pos m.last_seen)) (IsWord-Without m.endpoint he)
            (IsWord-Without (to_string (pos m.last_seen)) (to_string-IsWord m.last_seen)))))
message_text-Without (query m) hs =
    Without-space prefix (query_verb ␣ m.service) (refl, (refl, (refl, (refl, tt))))
      (Without-space query_verb m.service (refl, (refl, (refl, (refl, (refl, tt)))))
        (IsWord-Without m.service hs))

pub c_string-append : (s junk : Str) → Without 0 s → c_string (s ++ 0 ∷ junk) ≡ some s
unfolding c_string
c_string-append [] junk h = refl
c_string-append (x ∷ s) junk h = ground (arith, h.0, c_string-append s junk h.1)

-- The world with bytes put into an empty buffer.
abbrev pub filled : World → ℕ → Client → Str → World
filled w id c s = record w { clients = set w.clients id (record c { receive_buffer = s }) }

module _ (env : Env) (id : ℕ) (w : World) (c : Client) (here : get_elem? w.clients id ≡ some c)
    (empty : c.receive_buffer ≡ []) where
  -- Taking all bytes out again gives the world back.
  taken-filled : (s : Str) → taken (filled w id c s) id (record c { receive_buffer = s }) [] ≡ w
  taken-filled s =
      ap (λ cs. record w { clients = cs })
        (set-set w.clients id (record c { receive_buffer = s }) (record c { receive_buffer = [] })
          ∙ ap (λ b. set w.clients id (record c { receive_buffer = b })) (sym empty)
          ∙ set-get_elem? w.clients id c here)

  -- After the line nothing is left to do.
  nothing_left :
      (fuel : ℕ) (l : Str) (v : World)
      → handle_line env id (interpret l) w ≡ some (tt, v)
      → process_lines env (suc fuel) id v ≡ some (tt, v)
  unfolding split_at
  nothing_left fuel l v h = elim (Option-cases (get_elem? v.clients id)) [
    | inl e ↦ cc (ap core e, ap core here, handle_line-Cores env id (interpret l) w tt v h id)
    | inr (c', e) ↦ process_lines-none env fuel id v c' e (
        ap (split_at b'\n') (
          ap buffer_of (sym e)
          ∙ Cores-buffer w v id (handle_line-Cores env id (interpret l) w tt v h)
          ∙ ap buffer_of here
          ∙ empty))
  ]

  -- The bytes before the first zero byte stand in the buffer when the loop starts.
  received-filled :
      (s junk : Str)
      → Without 0 s
      → append_received env id (some (s ++ 0 ∷ junk)) w
        ≡ process_lines env (length s + 1) id (filled w id c s)
  unfolding append_received do_process_received_buffer
  received-filled s junk z = ground (
    arith,
    c_string-append s junk z,
    here,
    empty,
    get_elem?-set_self w.clients id (record c { receive_buffer = s }) c here,
  )

  one_line :
      (m : Message)
      → Without b'\n' (message_text m)
      → process_lines env (suc (length (framed m))) id (filled w id c (framed m))
        ≡ handle_line env id (interpret (message_text m)) w
  one_line m n =
      let c₁ : Client = record c { receive_buffer = framed m } in
      process_lines-some env (length (framed m)) id (filled w id c (framed m)) c₁ (message_text m)
        [] (get_elem?-set_self w.clients id c₁ c here) (split_at-append b'\n' (message_text m) [] n)
      ∙ ap
          (handle_line env id (interpret (message_text m))
            >> process_lines env (length (framed m)) id)
          (taken-filled (framed m))
      ∙ bind_idle (handle_line env id (interpret (message_text m)))
          (λ _. process_lines env (length (framed m)) id) w
          (λ _ v h.
            rw (length-append (message_text m) (b'\n' ∷ []), add-one)
              (nothing_left (length (message_text m)) (message_text m) v h))

-- A connection with an empty buffer that is given a printable message's framed text, a zero byte and
-- whatever else the memory of the buffer holds does what the received line asks for, once, and
-- nothing else. (The names have no zero byte.) So an update is handled as one with the same names, with
-- its time if that is below 2 ^ 31, and with the removal flag false.
pub append_received_message :
    (env : Env) (id : ℕ) (w : World) (c : Client) (m : Message) (junk : Str)
    → get_elem? w.clients id ≡ some c
    → c.receive_buffer ≡ []
    → IsPrintable m
    → Without 0 (message_text m)
    → append_received env id (some (framed m ++ 0 ∷ junk)) w
      ≡ handle_line env id (received_line m) w
append_received_message env id w c m junk here empty p z =
    received-filled env id w c here empty (framed m) junk
      (All-append _ (message_text m) (b'\n' ∷ []) z (refl, tt))
    ∙ ap (λ n. process_lines env n id (filled w id c (framed m))) (add-one (length (framed m)))
    ∙ one_line env id w c here empty m (message_text-Without m p)
    ∙ ap (λ l. handle_line env id l w) (interpret-message_text m p)
