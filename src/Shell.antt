-- ===== src/Shell.antt =====
-- The shell (src/peerboot/shell.hpp, src/peerboot/shell.cpp): it owns the store, the network handler
-- and the PeerBoot network. Its methods take no lock; each is one step here.
pub mod Lifecycle
pub mod ListenFailure
pub mod Success
pub mod Announce
pub mod Stop
pub mod Linked
use peerboot_cpp.Prelude.{ℕ, Bool, true, false, not, List, [], ◌∷◌, map, if◌then◌else◌}
use peerboot_cpp.Prelude.Int.{ℤ, pos, is_zero, is_negative}
use peerboot_cpp.Text.{Str, codes}
use peerboot_cpp.Types.{
  PeerInfo, ErrorCode, err_ok, err_lib_not_inited, err_lib_already_inited, err_network_listen,
}
use peerboot_cpp.Endpoint.{Endpoint, endpoint}
use peerboot_cpp.Store.{find_and_update, clear}
use peerboot_cpp.World.{
  World, Env, Shell, PeboNet, Handler, no_handler, empty_handler, net_handler, not_started,
}
use peerboot_cpp.Machine.{
  M, pure, fault, ◌>>=◌, ◌>>◌, assert, trace, get_net, put_net, get_shell, put_shell,
}
use peerboot_cpp.PeboNet.{clock, add_peer, broadcast, query_remote}
use peerboot_cpp.NetHandler.{start_handler, stop_handler}

-- Before `start` the shell's own peer is empty.
abbrev pub no_peer : PeerInfo
no_peer = record { service = []; endpoint = []; last_seen = 0; is_removed = false }

-- Shell::Shell
abbrev pub new_shell : Shell
new_shell = record {
  inited = false;
  peer = no_peer;
  has_callback = false;
  handler = no_handler;
  has_pebo_net = false;
}

-- PeboNet::PeboNet, on the shell's store
abbrev pub new_pebo_net : PeboNet → PeboNet
new_pebo_net net = record net { peers_in = []; peers_out = []; has_notify_cb = false }

unfoldable pub set_net_handler : Handler → M (Unit {0})
set_net_handler handler = do shell ← get_shell; put_shell (record shell { handler = handler })

-- A PeboNet on the shell's store that was made outside.
unfoldable pub set_pebo_net : PeboNet → M (Unit {0})
set_pebo_net net = do
  shell ← get_shell
  put_shell (record shell { has_pebo_net = true })
  put_net net

-- The default components, where none is set.
default_handler : Handler → Handler
default_handler no_handler = net_handler not_started
default_handler handler = handler

default_pebo_net : M (Unit {0})
default_pebo_net = do
  shell ← get_shell
  net ← get_net
  if shell.has_pebo_net
      then pure tt
      else (put_shell (record shell { has_pebo_net = true })
          >> put_net (record (new_pebo_net net) { has_notify_cb = true }))

unfoldable pub add_peers : Env → List Endpoint → M (Unit {0})
add_peers env [] = pure tt
add_peers env (e ∷ rest) = add_peer env e.host e.port >> add_peers env rest

-- The port 0 stands for 25 ports from 5000 on.
abbrev pub listen_port : ℤ → ℤ
listen_port port = if is_zero port then pos 5000 else port

abbrev pub listen_port_range : ℤ → ℤ
listen_port_range port = if is_zero port then pos 25 else pos 1

unfoldable pub init_components : Env → Bool → M (Unit {0})
unfolding default_handler default_pebo_net
init_components env callback = do
  shell ← get_shell
  assert (not shell.has_callback)
  put_shell (record shell {
    inited = true;
    has_callback = callback;
    handler = default_handler shell.handler;
  })
  default_pebo_net

unfoldable pub start_listening : Env → ℤ → M ErrorCode
start_listening env port = do
  shell ← get_shell
  actual ← start_handler env shell.handler (listen_port port) (listen_port_range port)
  if is_negative actual then pure err_network_listen else pure err_ok

-- Shell::init past its first test; `callback` says whether the callback is not null.
unfoldable pub init_new : Env → Bool → List Endpoint → ℤ → M ErrorCode
init_new env callback extra_peers port = do
  init_components env callback
  add_peer env (codes "node1.peerboot.io") (pos 5000)
  add_peer env (codes "node2.peerboot.io") (pos 5000)
  add_peers env extra_peers
  start_listening env port

unfoldable pub init : Env → Bool → List Endpoint → ℤ → M ErrorCode
init env callback extra_peers port = do
  shell ← get_shell
  if shell.inited then pure err_lib_already_inited else init_new env callback extra_peers port

broadcast_peer : Env → Bool → M ErrorCode
unfolding broadcast
broadcast_peer env is_removed = do
  shell ← get_shell
  assert shell.has_pebo_net
  broadcast env (record shell.peer { is_removed = is_removed })

unfoldable pub broadcast_refresh : Env → M ErrorCode
unfolding broadcast_peer
broadcast_refresh env = broadcast_peer env false

unfoldable pub broadcast_bye : Env → M ErrorCode
unfolding broadcast_peer
broadcast_bye env = broadcast_peer env true

unfoldable pub do_net_query : Env → Str → M ErrorCode
unfolding query_remote
do_net_query env service = do shell ← get_shell; assert shell.has_pebo_net; query_remote env service

-- Shell::start; PeboNet::start does nothing and returns err_ok.
unfoldable pub start : Env → Str → Str → M ErrorCode
unfolding broadcast_refresh do_net_query
start env service endpoint = do
  t ← clock env
  shell ← get_shell
  put_shell (record shell {
    peer = record { service = service; endpoint = endpoint; last_seen = t; is_removed = false };
  })
  assert shell.has_pebo_net
  now ← clock env
  net ← get_net
  put_net (record net { store = (find_and_update now net.store service endpoint false t).0 })
  broadcast_refresh env
  do_net_query env service
  pure err_ok

-- Shell::stop; PeboNet::stop does nothing.
unfoldable pub stop : Env → M ErrorCode
unfolding broadcast_bye stop_handler clear
stop env = do
  broadcast_bye env
  shell ← get_shell
  assert shell.has_pebo_net
  stop_handler env shell.handler
  net ← get_net
  put_net (record net { store = clear net.store })
  pure err_ok

stop_if_any : Env → Handler → M (Unit {0})
unfolding stop_handler
stop_if_any env no_handler = pure tt
stop_if_any env handler = stop_handler env handler

-- The network is destroyed, and its connections with it: the event loop has ended, and nothing calls
-- them. They stay in the list of the world, where a new network does not refer to them.
release : M (Unit {0})
release = do
  shell ← get_shell
  put_shell (record shell { handler = no_handler; has_pebo_net = false; has_callback = false })

-- Shell::deinit, which the destructor calls too
unfoldable pub deinit : Env → M ErrorCode
unfolding stop_if_any release
deinit env = do
  shell ← get_shell
  if shell.inited
      then (put_shell (record shell { inited = false })
          >> stop_if_any env shell.handler
          >> release
          >> pure err_ok)
      else pure err_lib_not_inited
