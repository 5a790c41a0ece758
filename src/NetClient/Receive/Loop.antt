-- ===== src/NetClient/Receive/Loop.antt =====
-- The rounds of the loop over a received buffer, and what they leave alone.
use peerboot_cpp.Prelude.{
  ℕ, zero, suc, ◌<◌, ◌≡◌, refl, ap, sym, ◌∙◌, false, Option, none, some, [], ◌∷◌, arith, get_elem?,
  set, get_elem?-set_self, length, Option-cases, inl, inr,
}
use peerboot_cpp.Text.{Str, split_at}
use peerboot_cpp.TimeStamp.{now}
use peerboot_cpp.Wire.{
  Line, too_few_tokens, wrong_prefix, unparseable, peer_line, query_line, interpret,
}
use peerboot_cpp.World.{World, Env, Client, received}
use peerboot_cpp.Machine.{pure, ◌>>◌}
use peerboot_cpp.Machine.Keeps.{Keeps, bind_Keeps, done_Keeps}
use peerboot_cpp.Message.{Message, update, query, peer_update_message, query_message}
use peerboot_cpp.NetClient.{set_state}
use peerboot_cpp.NetClient.Frame.{core, set_state-Frame}
use peerboot_cpp.PeboNet.{msg_from_pebo_peer, query_from_pebo_peer, do_query}
use peerboot_cpp.PeboNet.Frame.{do_query-Frame}
use peerboot_cpp.PeboNet.Flood.{peer_update-Frame}
use peerboot_cpp.NetClient.Receive.{handle_line, process_lines}

-- The length of what stands behind the first newline.
pub split_at-length :
    (c : ℕ) (s before after : Str) → split_at c s ≡ some (before, after) → length after < length s
unfolding split_at
split_at-length c [] before after h = cc
split_at-length c (x ∷ s) before after h = elim (Option-cases (split_at c s)) [
  | inl e ↦ ground arith
  | inr ((before', after'), e) ↦ ground (arith, split_at-length c s before' after' e)
]

-- Every connection keeps its direction, its address and its buffer.
abbrev pub Cores : World → World → Type 0
Cores w w' = (j : ℕ) → core (get_elem? w'.clients j) ≡ core (get_elem? w.clients j)

Cores-trans : (u v w : World) → Cores u v → Cores v w → Cores u w
Cores-trans u v w f g = λ j. g j ∙ f j

msg_from_pebo_peer-Cores :
    (env : Env) (id : ℕ) (msg : Message) (w : World) → Keeps Cores (msg_from_pebo_peer env id msg) w
unfolding msg_from_pebo_peer query_from_pebo_peer
msg_from_pebo_peer-Cores env id (update m) w = λ a w' h. (peer_update-Frame env id m w w' h).cores
msg_from_pebo_peer-Cores env id (query m) w =
    bind_Keeps Cores Cores-trans (do_query env id m.service) (λ _. pure tt) w
      (λ a v h. (do_query-Frame env id m.service w a v h).cores)
      (λ _ v _. done_Keeps Cores v v tt (λ j. refl))

-- A line changes no buffer.
pub handle_line-Cores :
    (env : Env) (id : ℕ) (l : Line) (w : World) → Keeps Cores (handle_line env id l) w
unfolding handle_line
handle_line-Cores env id (peer_line s e t) w =
    bind_Keeps Cores Cores-trans (set_state id received) _ w
      (λ a v h. (set_state-Frame id received w a v h).cores)
      (λ _ v _.
        msg_from_pebo_peer-Cores env id
          (peer_update_message (now (env.seconds v.trace)) s e t false 0) v)
handle_line-Cores env id (query_line s) w =
    bind_Keeps Cores Cores-trans (set_state id received) _ w
      (λ a v h. (set_state-Frame id received w a v h).cores)
      (λ _ v _. msg_from_pebo_peer-Cores env id (query_message (now (env.seconds v.trace)) s 0) v)
handle_line-Cores env id too_few_tokens w = done_Keeps Cores w w tt (λ j. refl)
handle_line-Cores env id wrong_prefix w = done_Keeps Cores w w tt (λ j. refl)
handle_line-Cores env id unparseable w = done_Keeps Cores w w tt (λ j. refl)

-- The buffer of a connection; a connection that is not there has none.
abbrev pub buffer_of : Option Client → Str
buffer_of none = []
buffer_of (some c) = c.receive_buffer

abbrev pub buffer : World → ℕ → Str
buffer w id = buffer_of (get_elem? w.clients id)

buffer_of-core : (o : Option Client) → buffer_of (core o) ≡ buffer_of o
buffer_of-core none = refl
buffer_of-core (some c) = refl

pub Cores-buffer : (w w' : World) (id : ℕ) → Cores w w' → buffer w' id ≡ buffer w id
Cores-buffer w w' id f =
    sym (buffer_of-core (get_elem? w'.clients id))
    ∙ ap buffer_of (f id)
    ∙ buffer_of-core (get_elem? w.clients id)

-- The world with the first line taken off the buffer.
abbrev pub taken : World → ℕ → Client → Str → World
taken w id c rest = record w { clients = set w.clients id (record c { receive_buffer = rest }) }

pub buffer-taken :
    (w : World) (id : ℕ) (c : Client) (rest : Str)
    → get_elem? w.clients id ≡ some c
    → buffer (taken w id c rest) id ≡ rest
buffer-taken w id c rest e =
    ap buffer_of (get_elem?-set_self w.clients id (record c { receive_buffer = rest }) c e)

-- One round of the loop.
pub process_lines-none :
    (env : Env) (fuel id : ℕ) (w : World) (c : Client)
    → get_elem? w.clients id ≡ some c
    → split_at b'\n' c.receive_buffer ≡ none
    → process_lines env (suc fuel) id w ≡ some (tt, w)
unfolding process_lines
process_lines-none env fuel id w c e s = ground (arith, e, s)

pub process_lines-some :
    (env : Env) (fuel id : ℕ) (w : World) (c : Client) (line rest : Str)
    → get_elem? w.clients id ≡ some c
    → split_at b'\n' c.receive_buffer ≡ some (line, rest)
    → process_lines env (suc fuel) id w
      ≡ (handle_line env id (interpret line) >> process_lines env fuel id) (taken w id c rest)
unfolding process_lines
process_lines-some env fuel id w c line rest e s = ground (arith, e, s)

-- Without the connection there is nothing to do but to fault.
pub process_lines_missing :
    (env : Env) (fuel id : ℕ) (w : World)
    → get_elem? w.clients id ≡ none
    → process_lines env fuel id w ≡ none
unfolding process_lines
process_lines_missing env zero id w e = refl
process_lines_missing env (suc fuel) id w e = ground (arith, e)

-- After a line has been handled, the rest is in the buffer.
pub buffer-handled :
    (env : Env) (id : ℕ) (w v : World) (c : Client) (l : Line) (rest : Str)
    → get_elem? w.clients id ≡ some c
    → handle_line env id l (taken w id c rest) ≡ some (tt, v)
    → buffer v id ≡ rest
buffer-handled env id w v c l rest e h =
    Cores-buffer (taken w id c rest) v id (handle_line-Cores env id l (taken w id c rest) tt v h)
    ∙ buffer-taken w id c rest e
