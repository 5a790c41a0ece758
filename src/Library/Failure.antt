-- ===== src/Library/Failure.antt =====
-- What becomes of a failed or finished library.
use peerboot_cpp.Prelude.{◌≡◌, refl, ◌∙◌, Bool, true, false, none, some, List, [], map, arith}
use peerboot_cpp.Prelude.Int.{ℤ, is_zero}
use peerboot_cpp.Text.{Str}
use peerboot_cpp.Types.{err_ok, err_lib_already_inited}
use peerboot_cpp.World.{World, Env, not_started, running, net_handler}
use peerboot_cpp.Library.{init_ex, init_ex_new, create_shell, discard, deinit}
use peerboot_cpp.Shell.{new_shell}
use peerboot_cpp.Shell.ListenFailure.{NoneFree, init_listen_failure}
use peerboot_cpp.NetHandler.Listen.{Ports, HasPorts}
use peerboot_cpp.Endpoint.{endpoint}
use peerboot_cpp.Shell.Lifecycle.{deinit_not_running, deinit_running, deinit_twice, deinited}

-- While the library is initialised a second initialisation is refused and changes nothing.
pub init_ex_twice :
    (env : Env) (service endpoint : Str) (callback : Bool) (extra : List Str) (port : ℤ) (w : World)
    → w.has_instance ≡ true
    → init_ex env service endpoint callback extra port w ≡ some (err_lib_already_inited, w)
unfolding init_ex
init_ex_twice env service endpoint callback extra port w h = ground arith

-- Deinitialising the library, with an initialised shell whose background thread runs and can be woken,
-- returns err_ok and leaves no instance; outside it closes the handles of the event loop and does nothing
-- else.
pub deinit_lem :
    (env : Env) (w : World)
    → w.has_instance ≡ true
    → w.shell.inited ≡ true
    → w.shell.handler ≡ net_handler running
    → is_zero (env.uv_async_send w.trace) ≡ true
    → deinit env w ≡ some (err_ok, deinited env (record w { has_instance = false }))
unfolding deinit
deinit_lem env w live inited thread woken =
    let v : World = record w { has_instance = false } in
    ground (
      arith,
      live,
      deinit_running env v inited thread woken,
      deinit_twice env (deinited env v) refl,
    )

pub init_ex-eq-init_ex_new :
    (env : Env) (service endpoint : Str) (callback : Bool) (extra : List Str) (port : ℤ) (w : World)
    → w.has_instance ≡ false
    → init_ex env service endpoint callback extra port w
      ≡ init_ex_new env service endpoint callback extra port w
unfolding init_ex
init_ex-eq-init_ex_new env service endpoint callback extra port w h = ground arith

-- The world once the new shell is there.
abbrev pub created : World → World
created w = record w {
  shell = new_shell;
  net = record w.net { peers_in = []; peers_out = []; store = []; has_notify_cb = false };
}

-- While the library is not initialised, initialising it when every port in the range that is tried is
-- refused, when it is bound or when it is listened on, does not return an error code, but is a fault: the
-- new shell is deleted, and that stops a thread that was never started. (Which ports can be bound, and
-- which listened on, does not change.)
pub init_ex_listen_failure :
    (env : Env) (ports : Ports) (service endpoint_in : Str) (callback : Bool) (extra : List Str)
    (port : ℤ) (w : World)
    → w.has_instance ≡ false
    → HasPorts env ports
    → NoneFree ports port
    → init_ex env service endpoint_in callback extra port w ≡ none
unfolding init_ex_new create_shell discard
init_ex_listen_failure env ports service endpoint_in callback extra port w h o t =
    let (w', failed, inited, thread) =
      init_listen_failure env ports callback (map endpoint extra) port (created w) o t refl in
    init_ex-eq-init_ex_new env service endpoint_in callback extra port w h
    ∙ rw failed (rw (deinit_not_running env w' not_started inited thread (λ e. cc)))
