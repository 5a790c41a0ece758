-- ===== src/Shell/Success.antt =====
-- Initialising a new shell when the port is free.
use peerboot_cpp.Prelude.{
  ℕ, zero, suc, ◌≡◌, refl, ap, sym, ◌∙◌, Bool, true, some, List, [], ◌∷◌, arith,
}
use peerboot_cpp.Prelude.Int.{pos, is_zero}
use peerboot_cpp.Text.{codes}
use peerboot_cpp.Types.{err_ok}
use peerboot_cpp.Endpoint.{Endpoint}
use peerboot_cpp.World.{World, Shell, Env, Act, Handler, not_started, running, net_handler}
use peerboot_cpp.PeboNet.Sends.{AllUsable}
use peerboot_cpp.PeboNet.Dial.{RawIdle, AllDialable, AddsTo, add_peer-AddsTo}
use peerboot_cpp.NetHandler.{start_handler}
use peerboot_cpp.NetHandler.Listen.{Ports, HasPorts, is_free}
use peerboot_cpp.NetHandler.Success.{start_handler_lem}
use peerboot_cpp.Shell.{
  new_shell, init, init_new, init_components, add_peers, start_listening, listen_port,
  listen_port_range,
}

-- What is asked of the outside: the port can be bound and listened on, and the background thread's
-- handle can be made and woken; the uninitialised state of a new connection is not that of one that is
-- under way.
pub record Allows (env : Env) (ports : Ports) (port : ℕ) : Type 0 where
  pub has : HasPorts env ports
  pub port_free : is_free ports (listen_port (pos port)) ≡ true
  pub async : (t : List Act) → is_zero (env.uv_async_init t) ≡ true
  pub woken : (t : List Act) → is_zero (env.uv_async_send t) ≡ true
  pub idle : RawIdle env

-- The shell of a library that is initialised, with a handler in the given state
abbrev pub shell_with : Bool → Handler → Shell
shell_with callback handler = record new_shell {
  inited = true;
  has_callback = callback;
  handler = handler;
  has_pebo_net = true;
}

add_peers-AddsTo :
    (env : Env) (peers : List Endpoint) (w : World)
    → RawIdle env
    → AllDialable w.clients w.net.peers_out
    → AddsTo w (add_peers env peers w)
unfolding add_peers
add_peers-AddsTo env [] w idle h = (w, refl, record { shell = refl; dialable = h })
add_peers-AddsTo env (e ∷ peers) w idle h =
    let (v, one, d) = add_peer-AddsTo env idle e.host e.port w h in
    let (w', rest, d') = add_peers-AddsTo env peers v idle d.dialable in
    (w', rw one rest, record { shell = d'.shell ∙ d.shell; dialable = d'.dialable })

components_ready :
    (env : Env) (callback : Bool) (w : World)
    → w.shell ≡ new_shell
    → (v : World) × (init_components env callback w ≡ some (tt, v))
      × (v.shell ≡ shell_with callback (net_handler not_started))
      × AllDialable v.clients v.net.peers_out
unfolding init_components
components_ready env callback w fresh = (
  record w {
    shell = shell_with callback (net_handler not_started);
    net = record w.net { peers_in = []; peers_out = []; has_notify_cb = true };
  },
  ground (arith, fresh),
  refl,
  tt,
)

listen_port_positive : (port : ℕ) → (n : ℕ) × (listen_port (pos port) ≡ pos (suc n))
listen_port_positive zero = (4999, refl)
listen_port_positive (suc n) = (n, ground arith)

start_listening_lem :
    (env : Env) (ports : Ports) (port : ℕ) (callback : Bool) (w : World)
    → Allows env ports port
    → w.shell ≡ shell_with callback (net_handler not_started)
    → AllDialable w.clients w.net.peers_out
    → (w' : World) × (start_listening env (pos port) w ≡ some (err_ok, w'))
      × (w'.shell ≡ shell_with callback (net_handler running))
      × AllUsable w'.clients w'.net.peers_out
unfolding start_listening
start_listening_lem env ports port callback w a s h =
    let (n, e) = listen_port_positive port in
    let (w', done, s', all) =
      start_handler_lem env ports n (listen_port_range (pos port)) w a.has
        (ap (is_free ports) (sym e) ∙ a.port_free) a.async a.idle (ap (λ x. x.has_pebo_net) s) h in
    let started : start_handler env w.shell.handler (listen_port (pos port))
          (listen_port_range (pos port)) w
        ≡ some (pos (suc n), w') =
      ap (λ x. start_handler env x (listen_port (pos port)) (listen_port_range (pos port)) w)
        (ap (λ x. x.handler) s)
      ∙ ap (λ p. start_handler env (net_handler not_started) p (listen_port_range (pos port)) w) e
      ∙ done in
    (
      w',
      ground (arith, started),
      s' ∙ ap {A = Shell} (λ x. record x { handler = net_handler running }) s,
      all,
    )

-- Initialising a new shell when the port is free succeeds: the thread runs, and messages can be sent to
-- each outgoing peer.
pub init_success :
    (env : Env) (ports : Ports) (callback : Bool) (peers : List Endpoint) (port : ℕ) (w : World)
    → Allows env ports port
    → w.shell ≡ new_shell
    → (w' : World) × (init env callback peers (pos port) w ≡ some (err_ok, w'))
      × (w'.shell ≡ shell_with callback (net_handler running))
      × AllUsable w'.clients w'.net.peers_out
unfolding init init_new
init_success env ports callback peers port w a fresh =
    let (v, ready, s, h) = components_ready env callback w fresh in
    let (v₁, one, d₁) = add_peer-AddsTo env a.idle (codes "node1.peerboot.io") (pos 5000) v h in
    let (v₂, two, d₂) =
      add_peer-AddsTo env a.idle (codes "node2.peerboot.io") (pos 5000) v₁ d₁.dialable in
    let (v₃, more, d₃) = add_peers-AddsTo env peers v₂ a.idle d₂.dialable in
    let (w', done, s', all) =
      start_listening_lem env ports port callback v₃ a (d₃.shell ∙ d₂.shell ∙ d₁.shell ∙ s)
        d₃.dialable in
    (w', ground (arith, ap (λ x. x.inited) fresh, ready, one, two, more, done), s', all)
