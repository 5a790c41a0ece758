-- ===== src/Shell/ListenFailure.antt =====
-- Initialising the shell when no port is free.
use peerboot_cpp.Prelude.{
  ℕ, ◌<◌, ◌≡◌, refl, ap, ◌∙◌, Bool, true, false, some, List, [], ◌∷◌, arith, if◌then◌else◌,
}
use peerboot_cpp.Prelude.Int.{ℤ, pos, negsuc, is_negative, ◌+ℤ◌}
use peerboot_cpp.Text.{Str, codes}
use peerboot_cpp.Types.{ErrorCode, err_ok, err_network_listen}
use peerboot_cpp.Endpoint.{Endpoint}
use peerboot_cpp.World.{World, Env, not_started, net_handler}
use peerboot_cpp.Machine.{M, pure, continue}
use peerboot_cpp.PeboNet.{add_peer}
use peerboot_cpp.NetHandler.{next_ports, do_listen, start_handler}
use peerboot_cpp.NetHandler.Listen.{Ports, HasPorts, is_free, after_attempts, do_listen_none}
use peerboot_cpp.Shell.{
  new_shell, init, init_new, init_components, add_peers, start_listening, listen_port,
  listen_port_range,
}

-- Adding peers succeeds and leaves the shell alone.
add_peer-shell :
    (env : Env) (host : Str) (port : ℤ) (w : World)
    → (w' : World) × (add_peer env host port w ≡ some (tt, w')) × (w'.shell ≡ w.shell)
unfolding add_peer
add_peer-shell env host port w = (_, refl, refl)

add_peers-shell :
    (env : Env) (peers : List Endpoint) (w : World)
    → (w' : World) × (add_peers env peers w ≡ some (tt, w')) × (w'.shell ≡ w.shell)
unfolding add_peers
add_peers-shell env [] w = (w, refl, refl)
add_peers-shell env (e ∷ peers) w =
    let (v, one, s) = add_peer-shell env e.host e.port w in
    let (w', rest, s') = add_peers-shell env peers v in (w', rw one rest, s' ∙ s)

-- Every port in the range that `init` tries is refused, when it is bound or when it is listened on.
abbrev pub NoneFree : Ports → ℤ → Type 0
NoneFree ports port =
    (j : ℕ)
    → j < next_ports (listen_port_range port)
    → is_free ports (listen_port port +ℤ pos j) ≡ false

start_listening_none :
    (env : Env) (ports : Ports) (port : ℤ) (w : World)
    → HasPorts env ports
    → NoneFree ports port
    → w.shell.handler ≡ net_handler not_started
    → (w' : World) × (start_listening env port w ≡ some (err_network_listen, w'))
      × (w'.shell ≡ w.shell)
unfolding start_listening start_handler
start_listening_none env ports port w o t h =
    let (done, s) = do_listen_none env ports (listen_port port) (listen_port_range port) w o t in
    let w' = after_attempts ports (listen_port port) (next_ports (listen_port_range port)) 0 w in
    (w', started w' done, s)
  where
    outcome : ℤ → M ErrorCode
    outcome actual = if is_negative actual then pure err_network_listen else pure err_ok

    started :
        (w' : World)
        → do_listen env (listen_port port) (listen_port_range port) w ≡ some (negsuc 0, w')
        → start_listening env port w ≡ some (err_network_listen, w')
    started w' done =
        ap
          (λ x.
            continue (start_handler env x (listen_port port) (listen_port_range port) w) outcome)
          h
        ∙ rw done

components-new :
    (env : Env) (callback : Bool) (w : World)
    → w.shell ≡ new_shell
    → (v : World) × (init_components env callback w ≡ some (tt, v))
      × (v.shell.inited ≡ true)
      × (v.shell.handler ≡ net_handler not_started)
unfolding init_components
components-new env callback w fresh = (
  record w {
    shell = record new_shell {
      inited = true;
      has_callback = callback;
      handler = net_handler not_started;
      has_pebo_net = true;
    };
    net = record w.net { peers_in = []; peers_out = []; has_notify_cb = true };
  },
  ground (arith, fresh),
  refl,
  refl,
)

init-eq-init_new :
    (env : Env) (callback : Bool) (peers : List Endpoint) (port : ℤ) (w : World)
    → w.shell.inited ≡ false
    → init env callback peers port w ≡ init_new env callback peers port w
unfolding init
init-eq-init_new env callback peers port w h = ground arith

-- Initialising a new shell when every port in the range that is tried is refused, when it is bound or
-- when it is listened on, returns err_network_listen, and leaves the shell marked as initialised, with a
-- network handler whose thread was never started. (Which ports can be bound, and which listened on, does
-- not change.)
pub init_listen_failure :
    (env : Env) (ports : Ports) (callback : Bool) (peers : List Endpoint) (port : ℤ) (w : World)
    → HasPorts env ports
    → NoneFree ports port
    → w.shell ≡ new_shell
    → (w' : World) × (init env callback peers port w ≡ some (err_network_listen, w'))
      × (w'.shell.inited ≡ true)
      × (w'.shell.handler ≡ net_handler not_started)
unfolding init_new
init_listen_failure env ports callback peers port w o t fresh =
    let (v, ready, i, h) = components-new env callback w fresh in
    let (v₁, one, s₁) = add_peer-shell env (codes "node1.peerboot.io") (pos 5000) v in
    let (v₂, two, s₂) = add_peer-shell env (codes "node2.peerboot.io") (pos 5000) v₁ in
    let (v₃, more, s₃) = add_peers-shell env peers v₂ in
    let s = s₃ ∙ s₂ ∙ s₁ in
    let (w', done, s') = start_listening_none env ports port v₃ o t (ap (λ x. x.handler) s ∙ h) in
    (
      w',
      init-eq-init_new env callback peers port w (ap (λ x. x.inited) fresh)
          ∙ rw (ready, one, two, more) done,
      ap (λ x. x.inited) (s' ∙ s) ∙ i,
      ap (λ x. x.handler) (s' ∙ s) ∙ h,
    )
