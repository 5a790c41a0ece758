-- ===== src/Shell/Lifecycle.antt =====
-- Starting, stopping and deinitialising the shell.
use mathlib.Core.List.{append_assoc, append-nil}
use peerboot_cpp.Prelude.{
  ◌≡◌, refl, ap, sym, ◌∙◌, ◌≢◌, ℕ, true, false, none, some, List, [], ◌∷◌, ◌++◌, map, arith,
  if◌then◌else◌, Bool-cases, inl, inr,
}
use peerboot_cpp.Prelude.Int.{is_zero, int_eq}
use peerboot_cpp.Types.{err_ok, err_lib_not_inited}
use peerboot_cpp.World.{
  World, Env, Act, Thread, running, joined, not_started, no_handler, net_handler, closed_handle,
}
use peerboot_cpp.NetHandler.{close_handles, close_loop}
use peerboot_cpp.NetHandler.Loop.{minus_ebusy}
use peerboot_cpp.Shell.{deinit}

-- What the background thread does outside as it ends.
abbrev pub closings : Env → List Act → List Act
closings env t =
    if int_eq (env.uv_loop_close t) minus_ebusy then map closed_handle (env.uv_walk t) else []

close_handles_lem :
    (hs : List ℕ) (w : World)
    → close_handles hs w ≡ some (tt, record w { trace = w.trace ++ map closed_handle hs })
unfolding close_handles
close_handles_lem [] w = ap (λ t. some (tt, record w { trace = t })) (sym (append-nil w.trace))
close_handles_lem (h ∷ hs) w =
    close_handles_lem hs (record w { trace = w.trace ++ closed_handle h ∷ [] })
    ∙ ap (λ t. some (tt, record w { trace = t }))
        (append_assoc w.trace (closed_handle h ∷ []) (map closed_handle hs))

pub close_loop_lem :
    (env : Env) (w : World)
    → close_loop env w ≡ some (tt, record w { trace = w.trace ++ closings env w.trace })
unfolding close_loop
close_loop_lem env w = elim (Bool-cases (int_eq (env.uv_loop_close w.trace) minus_ebusy)) [
  | inl busy ↦ rw busy (close_handles_lem (env.uv_walk w.trace) w)
  | inr idle ↦ rw idle (ap (λ t. some (tt, record w { trace = t })) (sym (append-nil w.trace)))
]

-- A shell that is not initialised is not touched.
pub deinit_twice :
    (env : Env) (w : World) → w.shell.inited ≡ false → deinit env w ≡ some (err_lib_not_inited, w)
unfolding deinit
deinit_twice env w h = rw h

-- The world after deinitialising: the shell has neither components nor callback.
abbrev pub deinited : Env → World → World
deinited env w = record w {
  trace = w.trace ++ closings env w.trace;
  shell = record w.shell {
    inited = false;
    handler = no_handler;
    has_pebo_net = false;
    has_callback = false;
  };
}

-- Deinitialising a running shell joins the background thread, drops the components and the callback,
-- and returns err_ok. It sends nothing, and all that happens outside is that handles are closed. (The
-- event loop can be woken.)
pub deinit_running :
    (env : Env) (w : World)
    → w.shell.inited ≡ true
    → w.shell.handler ≡ net_handler running
    → is_zero (env.uv_async_send w.trace) ≡ true
    → deinit env w ≡ some (err_ok, deinited env w)
unfolding deinit
deinit_running env w h e woken = ground (
  arith,
  h,
  e,
  woken,
  close_loop_lem env (record w { shell = record w.shell { inited = false } }),
)

-- Deinitialising an initialised shell with a NetHandler whose background thread does not run, as it
-- was never started or was stopped already, is a fault.
pub deinit_not_running :
    (env : Env) (w : World) (thread : Thread)
    → w.shell.inited ≡ true
    → w.shell.handler ≡ net_handler thread
    → thread ≢ running
    → deinit env w ≡ none
unfolding deinit
deinit_not_running env w not_started h e n = ground arith
deinit_not_running env w running h e n = absurd (n refl)
deinit_not_running env w joined h e n = ground arith
