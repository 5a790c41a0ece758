-- ===== src/Library/Success.antt =====
-- The library from its initialisation to its end, when the port is free.
use peerboot_cpp.Prelude.{
  ℕ, ◌≡◌, refl, ap, ◌∙◌, Bool, true, false, not, some, List, ◌++◌, map, arith, All-select,
}
use peerboot_cpp.Prelude.Int.{pos}
use peerboot_cpp.Text.{Str, str_eq}
use peerboot_cpp.Types.{err_ok, err_lib_already_inited}
use peerboot_cpp.Endpoint.{endpoint}
use peerboot_cpp.World.{World, Shell, Env, running, net_handler}
use peerboot_cpp.PeboNet.{local_node_addr}
use peerboot_cpp.NetHandler.Listen.{Ports}
use peerboot_cpp.Shell.Lifecycle.{closings, deinited}
use peerboot_cpp.Shell.Announce.{starting, start_lem}
use peerboot_cpp.Shell.Success.{Allows, shell_with, init_success}
use peerboot_cpp.Library.{create_shell, start_shell, init_ex_new, init_ex, deinit}
use peerboot_cpp.Library.Failure.{created, init_ex_twice, init_ex-eq-init_ex_new, deinit_lem}

-- While the library is not initialised, initEx returns err_ok if the port that it is given, or the
-- default one, is free, that is, can be bound and listened on: the library is then initialised, with the
-- background thread running, so that a second initEx is refused; and deinit, called next, returns err_ok
-- as well, closes the handles of the event loop and does nothing else outside, and leaves the library not
-- initialised. (Which ports can be bound, and which listened on, does not change, the thread's handle can
-- be made and woken, and the uninitialised state of a new connection does not happen to be that of one
-- that is under way. Nothing is asked of addresses, of libuv's connecting, and of the writes.)
pub init_ex_success :
    (env : Env) (ports : Ports) (service endpoint_in : Str) (callback : Bool) (extra : List Str)
    (port : ℕ) (w : World)
    → Allows env ports port
    → w.has_instance ≡ false
    → (w' : World) × (init_ex env service endpoint_in callback extra (pos port) w
        ≡ some (err_ok, w'))
      × (w'.shell.handler ≡ net_handler running)
      × (init_ex env service endpoint_in callback extra (pos port) w'
          ≡ some (err_lib_already_inited, w'))
      × ((w'' : World) × (deinit env w' ≡ some (err_ok, w''))
          × (w''.trace ≡ w'.trace ++ closings env w'.trace)
          × (w''.has_instance ≡ false))
unfolding init_ex_new create_shell start_shell
init_ex_success env ports service endpoint_in callback extra port w a h =
    let (v, ready, s, all) =
      init_success env ports callback (map endpoint extra) port (created w) a refl in
    let (_, u, done, _, _, _, _, s', _) =
      start_lem env service endpoint_in v (ap (λ x. x.has_pebo_net) s)
        (All-select _ (λ p. not (str_eq p.node_addr local_node_addr)) v.net.peers_out all) in
    let w' : World = record u { has_instance = true } in
    let now : w'.shell ≡ record (shell_with callback (net_handler running)) {
      peer = starting env service endpoint_in v;
    } =
      s' ∙ ap {A = Shell} (λ x. record x { peer = starting env service endpoint_in v }) s in
    (
      w',
      init_ex-eq-init_ex_new env service endpoint_in callback extra (pos port) w h
          ∙ ground (arith, ready, done),
      ap (λ x. x.handler) now,
      init_ex_twice env service endpoint_in callback extra (pos port) w' refl,
      (
        deinited env (record w' { has_instance = false }),
        deinit_lem env w' refl (ap (λ x. x.inited) now) (ap (λ x. x.handler) now)
            (a.woken w'.trace),
        refl,
        refl,
      ),
    )
