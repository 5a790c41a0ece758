-- ===== src/Shell/Stop.antt =====
-- Stopping a shell (Shell::stop), and what it leaves for Shell::deinit.
use peerboot_cpp.Prelude.{◌≡◌, refl, ap, ◌∙◌, true, none, some, List, [], ◌++◌, arith}
use peerboot_cpp.Prelude.Int.{is_zero}
use peerboot_cpp.Types.{err_ok}
use peerboot_cpp.Store.{clear}
use peerboot_cpp.World.{World, Env, Act, running, joined, net_handler}
use peerboot_cpp.PeboNet.{broadcast}
use peerboot_cpp.NetHandler.{stop_handler}
use peerboot_cpp.Shell.{stop, deinit, broadcast_bye}
use peerboot_cpp.Shell.Announce.{AllReachable, TellsAll, announcement, broadcast_announces}
use peerboot_cpp.Shell.Lifecycle.{closings, close_loop_lem, deinit_not_running}

-- The world once the thread was joined and the store cleared.
abbrev pub stopped : Env → World → World
stopped env v = record v {
  trace = v.trace ++ closings env v.trace;
  shell = record v.shell { handler = net_handler joined };
  net = record v.net { store = [] };
}

-- The steps of a stop, one after the other.
stop_steps :
    (env : Env) (w v : World)
    → w.shell.has_pebo_net ≡ true
    → w.shell.handler ≡ net_handler running
    → is_zero (env.uv_async_send v.trace) ≡ true
    → broadcast env (record w.shell.peer { is_removed = true }) w ≡ some (err_ok, v)
    → v.shell ≡ w.shell
    → stop env w ≡ some (err_ok, stopped env v)
unfolding stop broadcast_bye stop_handler clear
stop_steps env w v here thread woken told kept = ground (
  arith,
  here,
  told,
  woken,
  ap (λ x. x.has_pebo_net) kept,
  ap (λ x. x.handler) kept,
  thread,
  close_loop_lem env v,
)

-- Stopping a shell that is initialised and whose thread runs succeeds, whatever libuv answers to the
-- writes. First the goodbye is broadcast, that is, the client's peer as removed: every outgoing peer whose
-- connection is open has the goodbye's bytes written to it, which are those of an announcement, since they
-- do not hold the removal flag. Then the thread is joined, at whose end the handles of the event loop are
-- closed, and the store is cleared; nothing else changes. Deinitialising the shell right after that is a
-- fault. (Each outgoing peer's connection is open, or closing or closed, and the event loop can be woken.)
pub stop_lem :
    (env : Env) (w : World)
    → w.shell.inited ≡ true
    → w.shell.has_pebo_net ≡ true
    → w.shell.handler ≡ net_handler running
    → ((t : List Act) → is_zero (env.uv_async_send t) ≡ true)
    → AllReachable w
    → (v : World) × (broadcast env (record w.shell.peer { is_removed = true }) w ≡ some (err_ok, v))
      × TellsAll w v (announcement (record w.shell.peer { is_removed = true }))
      × (stop env w ≡ some (err_ok, stopped env v))
      × (deinit env (stopped env v) ≡ none)
stop_lem env w live here thread woken o =
    let (v, told, t) = broadcast_announces env (record w.shell.peer { is_removed = true }) w o in
    (
      v,
      told,
      t,
      stop_steps env w v here thread (woken v.trace) told t.frame.shell,
      deinit_not_running env (stopped env v) joined (ap (λ x. x.inited) t.frame.shell ∙ live) refl
          (λ e. cc),
    )
