-- ===== src/Shell/Linked.antt =====
-- The methods of the shell, and the links of the node.
use peerboot_cpp.Prelude.{Bool, true, false, not, List, [], ◌∷◌}
use peerboot_cpp.Prelude.Int.{ℤ, pos, is_negative}
use peerboot_cpp.Text.{Str, codes}
use peerboot_cpp.TimeStamp.{now}
use peerboot_cpp.Types.{err_ok, err_lib_not_inited, err_lib_already_inited, err_network_listen}
use peerboot_cpp.Endpoint.{Endpoint}
use peerboot_cpp.Store.{find_and_update, clear}
use peerboot_cpp.Store.WellFormed.{IsWellFormed-empty}
use peerboot_cpp.World.{World, Env, Handler, no_handler, empty_handler, net_handler}
use peerboot_cpp.Machine.{pure, assert, get_shell, put_shell, ◌>>◌}
use peerboot_cpp.Machine.Keeps.{done_Keeps, then_Keeps, if_Keeps}
use peerboot_cpp.Node.Linked.{IsLinked}
use peerboot_cpp.Node.Safe.{
  Kept, Kept-trans, Safe, bind-Safe, pure-Safe, if-Safe, assert-Safe, get_shell-Safe,
  put_shell-Safe, rest_IsLinked, store_IsLinked,
}
use peerboot_cpp.PeboNet.{clock, add_peer}
use peerboot_cpp.PeboNet.Linked.{
  clock-Safe, add_peer-Safe, broadcast-Safe, query_remote-Safe, stored-Kept,
}
use peerboot_cpp.NetHandler.{start_handler, stop_handler}
use peerboot_cpp.NetHandler.Linked.{start_handler-Safe, stop_handler-Safe}
use peerboot_cpp.Shell.{
  new_pebo_net, default_handler, default_pebo_net, add_peers, listen_port, listen_port_range,
  init_components, start_listening, init_new, init, broadcast_peer, broadcast_refresh,
  broadcast_bye, do_net_query, start, stop, stop_if_any, release, deinit,
}

-- A new network on the same store, with no peers.
pub new_net_IsLinked :
    {w : World} (cb : Bool)
    → IsLinked w
    → IsLinked (record w { net = record (new_pebo_net w.net) { has_notify_cb = cb } })
new_net_IsLinked cb l = record {
  fresh = l.fresh;
  apart = l.apart;
  outs = tt;
  ins = tt;
  filed = l.filed;
}

default_pebo_net-Safe : Safe default_pebo_net
unfolding default_pebo_net
default_pebo_net-Safe w =
    if_Keeps Kept w.shell.has_pebo_net (pure tt) _ w (λ _. pure-Safe tt w)
      λ _. done_Keeps Kept w _ tt λ l.
        new_net_IsLinked true
          (rest_IsLinked w.trace (record w.shell { has_pebo_net = true }) w.has_instance l)

init_components-Safe : (env : Env) (callback : Bool) → Safe (init_components env callback)
unfolding init_components
init_components-Safe env callback = bind-Safe get_shell _ get_shell-Safe λ shell.
    bind-Safe (assert (not shell.has_callback)) _ (assert-Safe _) λ _.
      bind-Safe
        (put_shell (record shell {
          inited = true;
          has_callback = callback;
          handler = default_handler shell.handler;
        }))
        _ (put_shell-Safe _) (λ _. default_pebo_net-Safe)

add_peers-Safe : (env : Env) (extra : List Endpoint) → Safe (add_peers env extra)
unfolding add_peers
add_peers-Safe env [] = pure-Safe tt
add_peers-Safe env (e ∷ rest) =
    bind-Safe (add_peer env e.host e.port) _ (add_peer-Safe env e.host e.port)
      (λ _. add_peers-Safe env rest)

start_listening-Safe : (env : Env) (port : ℤ) → Safe (start_listening env port)
unfolding start_listening
start_listening-Safe env port = bind-Safe get_shell _ get_shell-Safe λ shell.
    bind-Safe (start_handler env shell.handler (listen_port port) (listen_port_range port)) _
      (start_handler-Safe env shell.handler (listen_port port) (listen_port_range port))
      (λ actual.
        if-Safe (is_negative actual) (pure err_network_listen) (pure err_ok)
          (pure-Safe err_network_listen) (pure-Safe err_ok))

init_new-Safe :
    (env : Env) (callback : Bool) (extra : List Endpoint) (port : ℤ)
    → Safe (init_new env callback extra port)
unfolding init_new
init_new-Safe env callback extra port =
    let one = codes "node1.peerboot.io" in
    let two = codes "node2.peerboot.io" in
    bind-Safe (init_components env callback) _ (init_components-Safe env callback) λ _.
      bind-Safe (add_peer env one (pos 5000)) _ (add_peer-Safe env one (pos 5000)) λ _.
        bind-Safe (add_peer env two (pos 5000)) _ (add_peer-Safe env two (pos 5000)) λ _.
          bind-Safe (add_peers env extra) _ (add_peers-Safe env extra)
            λ _. start_listening-Safe env port

pub init-Safe :
    (env : Env) (callback : Bool) (extra : List Endpoint) (port : ℤ)
    → Safe (init env callback extra port)
unfolding init
init-Safe env callback extra port = bind-Safe get_shell _ get_shell-Safe λ shell.
    if-Safe shell.inited (pure err_lib_already_inited) (init_new env callback extra port)
      (pure-Safe err_lib_already_inited) (init_new-Safe env callback extra port)

broadcast_peer-Safe : (env : Env) (is_removed : Bool) → Safe (broadcast_peer env is_removed)
unfolding broadcast_peer
broadcast_peer-Safe env is_removed = bind-Safe get_shell _ get_shell-Safe λ shell.
    bind-Safe (assert shell.has_pebo_net) _ (assert-Safe shell.has_pebo_net)
      λ _. broadcast-Safe env (record shell.peer { is_removed = is_removed })

pub broadcast_refresh-Safe : (env : Env) → Safe (broadcast_refresh env)
unfolding broadcast_refresh
broadcast_refresh-Safe env = broadcast_peer-Safe env false

do_net_query-Safe : (env : Env) (service : Str) → Safe (do_net_query env service)
unfolding do_net_query
do_net_query-Safe env service = bind-Safe get_shell _ get_shell-Safe λ shell.
    bind-Safe (assert shell.has_pebo_net) _ (assert-Safe shell.has_pebo_net)
      (λ _. query_remote-Safe env service)

pub start-Safe : (env : Env) (service endpoint : Str) → Safe (start env service endpoint)
unfolding start
start-Safe env service endpoint = bind-Safe (clock env) _ (clock-Safe env) λ t.
    bind-Safe get_shell _ get_shell-Safe λ shell.
      bind-Safe
        (put_shell (record shell {
          peer = record {
            service = service;
            endpoint = endpoint;
            last_seen = t;
            is_removed = false;
          };
        }))
        _ (put_shell-Safe _)
        λ _. bind-Safe (assert shell.has_pebo_net) _ (assert-Safe shell.has_pebo_net) λ _ w.
          let v : World = record w {
            net = record w.net {
              store =
                  (find_and_update (now (env.seconds w.trace)) w.net.store service endpoint false
                    t).0;
            };
          } in
          then_Keeps Kept Kept-trans w v _
            (stored-Kept (now (env.seconds w.trace)) service endpoint false t w)
            (bind-Safe (broadcast_refresh env) _ (broadcast_refresh-Safe env)
              (λ _.
                bind-Safe (do_net_query env service) _ (do_net_query-Safe env service)
                  (λ _. pure-Safe err_ok))
              v)

pub stop-Safe : (env : Env) → Safe (stop env)
unfolding stop broadcast_bye clear
stop-Safe env = bind-Safe (broadcast_bye env) _ (broadcast_peer-Safe env true) λ _.
    bind-Safe get_shell _ get_shell-Safe λ shell.
      bind-Safe (assert shell.has_pebo_net) _ (assert-Safe shell.has_pebo_net) λ _.
        bind-Safe (stop_handler env shell.handler) _ (stop_handler-Safe env shell.handler)
          λ _ w. done_Keeps Kept w _ err_ok (store_IsLinked [] IsWellFormed-empty)

stop_if_any-Safe : (env : Env) (handler : Handler) → Safe (stop_if_any env handler)
unfolding stop_if_any
stop_if_any-Safe env no_handler = pure-Safe tt
stop_if_any-Safe env empty_handler = stop_handler-Safe env empty_handler
stop_if_any-Safe env (net_handler thread) = stop_handler-Safe env (net_handler thread)

release-Safe : Safe release
unfolding release
release-Safe = bind-Safe get_shell _ get_shell-Safe (λ shell. put_shell-Safe _)

pub deinit-Safe : (env : Env) → Safe (deinit env)
unfolding deinit
deinit-Safe env = bind-Safe get_shell _ get_shell-Safe λ shell.
    if-Safe shell.inited
      (put_shell (record shell { inited = false })
        >> stop_if_any env shell.handler
        >> release
        >> pure err_ok)
      (pure err_lib_not_inited)
      (bind-Safe
        (put_shell (record shell { inited = false }) >> stop_if_any env shell.handler >> release) _
        (bind-Safe (put_shell (record shell { inited = false }) >> stop_if_any env shell.handler) _
          (bind-Safe (put_shell (record shell { inited = false })) _ (put_shell-Safe _)
            (λ _. stop_if_any-Safe env shell.handler))
          (λ _. release-Safe))
        (λ _. pure-Safe err_ok))
      (pure-Safe err_lib_not_inited)
