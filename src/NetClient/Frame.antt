-- ===== src/NetClient/Frame.antt =====
-- What the operations of a connection leave alone.
use peerboot_cpp.Prelude.{
  ℕ, ◌≡◌, refl, ◌∙◌, Option, none, some, List, [], ◌∷◌, ◌++◌, get_elem?, set, observe-set,
}
use peerboot_cpp.Prelude.Int.{ℤ, pos}
use peerboot_cpp.World.{
  World, Env, Client, State, Stream, Act, undefined, closing, closed, sending, receiving, wild,
  null, handle, wrote, read_started, closed_handle,
}
use peerboot_cpp.Machine.{pure, act, ◌>>◌}
use peerboot_cpp.Machine.Keeps.{
  Keeps, fault-Keeps, done_Keeps, if_Keeps, assert-Keeps, handle_Keeps, client-Keeps, then_Keeps,
  bind_Keeps,
}
use peerboot_cpp.Text.{Str}
use peerboot_cpp.Message.{Message}
use peerboot_cpp.NetClient.{
  set_state, close_handle, close_stream, close, write_message, send_message, on_close, may_read,
  is_shut, do_read,
}

-- A connection but for its state and its stream.
abbrev pub core : Option Client → Option Client
core none = none
core (some c) = some (record c { state = undefined; stream = wild })

pub core-set :
    (cs : List Client) (id j : ℕ) (c c' : Client)
    → get_elem? cs id ≡ some c
    → core (some c') ≡ core (some c)
    → core (get_elem? (set cs id c') j) ≡ core (get_elem? cs j)
core-set cs id j c c' h e = observe-set core cs id j c' c h e

-- Calls of libuv on a stream.
abbrev pub IsStreamAct : Act → Type 0
IsStreamAct (wrote id h bytes) = Unit {0}
IsStreamAct (read_started h) = Unit {0}
IsStreamAct (closed_handle h) = Unit {0}
IsStreamAct _ = ⊥

-- The network, the shell and the instance stay; every connection keeps its direction, its address
-- and its buffer.
pub record Frame (w w' : World) : Type 0 where
  pub net : w'.net ≡ w.net
  pub shell : w'.shell ≡ w.shell
  pub cores : (j : ℕ) → core (get_elem? w'.clients j) ≡ core (get_elem? w.clients j)

pub Frame-refl : (w : World) → Frame w w
Frame-refl w = record { net = refl; shell = refl; cores = λ j. refl }

pub Frame-trans : (u v w : World) → Frame u v → Frame v w → Frame u w
Frame-trans u v w f g = record {
  net = g.net ∙ f.net;
  shell = g.shell ∙ f.shell;
  cores = λ j. g.cores j ∙ f.cores j;
}

module _ (w : World) (id : ℕ) (c : Client) (e : get_elem? w.clients id ≡ some c) where
  -- A write of a connection that changes its state or its stream only.
  pub put-Frame :
      (c' : Client)
      → core (some c') ≡ core (some c)
      → Frame w (record w { clients = set w.clients id c' })
  put-Frame c' h = record {
    net = refl;
    shell = refl;
    cores = λ j. core-set w.clients id j c c' e h;
  }

pub act-Frame : (w : World) (acts : List Act) → Frame w (record w { trace = acts })
act-Frame w acts = record { net = refl; shell = refl; cores = λ j. refl }

pub set_state-Frame : (id : ℕ) (s : State) (w : World) → Keeps Frame (set_state id s) w
set_state-Frame id s w =
    client-Keeps Frame id _ w
      λ c e. done_Keeps Frame w _ tt (put-Frame w id c e (record c { state = s }) refl)

close_handle-Frame :
    (env : Env) (id : ℕ) (c : Client) (h : ℕ) (w : World)
    → get_elem? w.clients id ≡ some c
    → Keeps Frame (close_handle env id c h) w
unfolding close_handle
close_handle-Frame env id c h w e =
    let c' : Client = record c { state = closing; stream = null } in
    let v : World = record w { clients = set w.clients id c' } in
    then_Keeps Frame Frame-trans w v _ (put-Frame w id c e c' refl) (
      if_Keeps Frame (env.uv_is_closing w.trace h) (on_close id) (act (closed_handle h)) v
        (λ _. set_state-Frame id closed v) (λ _. done_Keeps Frame v _ tt (act-Frame v _)))

close_stream-Frame :
    (env : Env) (id : ℕ) (c : Client) (s : Stream) (w : World)
    → get_elem? w.clients id ≡ some c
    → Keeps Frame (close_stream env id c s) w
unfolding close_stream
close_stream-Frame env id c wild w e = fault-Keeps Frame w
close_stream-Frame env id c null w e = done_Keeps Frame w _ tt (put-Frame w id c e _ refl)
close_stream-Frame env id c (handle h) w e = close_handle-Frame env id c h w e

pub close-Frame : (env : Env) (id : ℕ) (w : World) → Keeps Frame (close env id) w
unfolding close
close-Frame env id w = client-Keeps Frame id _ w λ c e. close_stream-Frame env id c c.stream w e

close_then-Frame : (env : Env) (id : ℕ) (z : ℤ) (w : World) → Keeps Frame (close env id >> pure z) w
close_then-Frame env id z w =
    bind_Keeps Frame Frame-trans (close env id) (λ _. pure z) w (close-Frame env id w)
      (λ _ v _. done_Keeps Frame v v z (Frame-refl v))

write_message-Frame :
    (env : Env) (id : ℕ) (c : Client) (bytes : Str) (w : World)
    → get_elem? w.clients id ≡ some c
    → Keeps Frame (write_message env id c bytes) w
unfolding write_message
write_message-Frame env id c bytes w e =
    let c' : Client = record c { state = sending } in
    let v : World = record w { clients = set w.clients id c' } in
    then_Keeps Frame Frame-trans w v _ (put-Frame w id c e c' refl) (
      handle_Keeps Frame c.stream _ v λ h _.
        then_Keeps Frame Frame-trans v _ _ (act-Frame v (v.trace ++ wrote id h bytes ∷ [])) (
          if_Keeps Frame _ (pure (pos 0)) (close env id >> pure _) _
            (λ _. done_Keeps Frame _ _ (pos 0) (Frame-refl _)) (λ _. close_then-Frame env id _ _)))

pub send_message-Frame :
    (env : Env) (id : ℕ) (msg : Message) (w : World) → Keeps Frame (send_message env id msg) w
unfolding send_message
send_message-Frame env id msg w = client-Keeps Frame id _ w λ c e.
    if_Keeps Frame (is_shut c.state) (pure (pos 0)) _ w
      (λ _. done_Keeps Frame w w (pos 0) (Frame-refl w)) (λ _. write_message-Frame env id c _ w e)

pub do_read-Frame : (env : Env) (id : ℕ) (w : World) → Keeps Frame (do_read env id) w
unfolding do_read
do_read-Frame env id w = client-Keeps Frame id _ w λ c e.
    assert-Keeps Frame (may_read c.state) _ w λ _.
      let v : World = record w { clients = set w.clients id (record c { state = receiving }) } in
      then_Keeps Frame Frame-trans w v _ (put-Frame w id c e _ refl) (
        handle_Keeps Frame c.stream _ v λ h _.
          then_Keeps Frame Frame-trans v _ _ (act-Frame v (v.trace ++ read_started h ∷ [])) (
            if_Keeps Frame _ (close env id >> pure _) (pure (pos 0)) _
              (λ _. close_then-Frame env id _ _)
              (λ _. done_Keeps Frame _ _ (pos 0) (Frame-refl _))))
