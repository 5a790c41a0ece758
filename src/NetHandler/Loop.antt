-- ===== src/NetHandler/Loop.antt =====
-- The object of libuv's event loop and the background thread that runs it (src/peerboot/
-- net_handler.cpp). What libuv answers, and what the thread reads in the flag `myBgThreadStop`, which
-- another thread writes, depends on everything that was done before.
use peerboot_cpp.Prelude.{
  ℕ, zero, suc, ◌+◌, Bool, List, [], ◌∷◌, ◌++◌, Option, none, some, if◌then◌else◌,
}
use peerboot_cpp.Prelude.Int.{ℤ, negsuc, int_eq}

pub data LoopAct : Type 0 where
  -- uv_loop_init, uv_run, uv_loop_close of a loop, and its deletion
  loop_inited loop_run loop_closed loop_deleted : ℕ → LoopAct
  -- uv_close of a handle with NetHandler::on_close, and the deletion of a handle
  handle_closing handle_deleted : ℕ → LoopAct
  slept : LoopAct

-- `current` is myUvLoop, if it is not null; `next` is the next loop that `new uv_loop_t()` returns.
pub record Loops : Type 0 where
  pub current : Option ℕ
  pub next : ℕ
  pub acts : List LoopAct

-- `uv_run_returns` says whether uv_run of the loop comes to an end; `walked` are the handles that uv_walk
-- visits; `stop_flag` is the value of myBgThreadStop.
pub record LoopEnv : Type 0 where
  pub uv_run_returns : List LoopAct → ℕ → Bool
  pub uv_loop_close : List LoopAct → ℕ → ℤ
  pub walked : List LoopAct → ℕ → List ℕ
  pub stop_flag : List LoopAct → Bool

abbrev pub did : LoopAct → Loops → Loops
did a loops = record loops { acts = loops.acts ++ a ∷ [] }

unfoldable pub get_uv_loop : Loops → ℕ × Loops
get_uv_loop loops = elim loops.current [
  | some id ↦ (id, loops)
  | none ↦ (
    loops.next,
    record {
      current = some loops.next;
      next = loops.next + 1;
      acts = loops.acts ++ loop_inited loops.next ∷ [];
    },
  )
]

unfoldable pub delete_uv_loop : Loops → Loops
delete_uv_loop loops = elim loops.current [
  | some id ↦ did (loop_deleted id) (record loops { current = none })
  | none ↦ loops
]

unfoldable pub on_walk : ℕ → Loops → Loops
on_walk h loops = did (handle_closing h) loops

-- The callback of closing; the handle may be null.
unfoldable pub on_close : Option ℕ → Loops → Loops
on_close none loops = loops
on_close (some h) loops = did (handle_deleted h) loops

-- uv_walk with on_walk
unfoldable pub walk : List ℕ → Loops → Loops
unfolding on_walk
walk [] loops = loops
walk (h ∷ handles) loops = walk handles (on_walk h loops)

-- -EBUSY
abbrev pub minus_ebusy : ℤ
minus_ebusy = negsuc 15

unfoldable pub close_uv_loop : LoopEnv → ℕ → Loops → Loops
unfolding walk
close_uv_loop env id loops =
    let res = env.uv_loop_close loops.acts id in
    let closed = did (loop_closed id) loops in
    if int_eq res minus_ebusy then walk (env.walked closed.acts id) closed else closed

-- The result is always 0; that of uv_run is only printed. `none` if uv_run does not return: it blocks
-- until it is stopped or no handle is active any more.
unfoldable pub run_loop : LoopEnv → Loops → Option Loops
unfolding get_uv_loop close_uv_loop delete_uv_loop
run_loop env loops =
    let (id, got) = get_uv_loop loops in
    if env.uv_run_returns got.acts id
    then some (delete_uv_loop (close_uv_loop env id (did (loop_run id) got)))
    else none

-- A round of the loop of doBgThread that is not left by the first test: run, and sleep unless stopped.
abbrev pub after_run : LoopEnv → (Loops → Option Loops) → Option Loops → Option Loops
after_run env rest none = none
after_run env rest (some ran) = if env.stop_flag ran.acts then some ran else rest (did slept ran)

-- The loop of doBgThread; `none` if the fuel does not suffice, or if uv_run does not return.
unfoldable pub do_bg_thread : LoopEnv → ℕ → Loops → Option Loops
unfolding run_loop
do_bg_thread env zero loops = none
do_bg_thread env (suc fuel) loops =
    let rest = after_run env (do_bg_thread env fuel) (run_loop env loops) in
    if env.stop_flag loops.acts then some loops else rest
