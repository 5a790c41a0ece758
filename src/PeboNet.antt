-- ===== src/PeboNet.antt =====
-- The PeerBoot network of a node (src/peerboot/pebo_net.hpp, src/peerboot/pebo_net.cpp): the lists of
-- connections, broadcasting, and the answers to the messages of peers. The callback to the client
-- goes through the shell (src/peerboot/shell.cpp). The mutexes guard one list each and are held for
-- a push or a copy, except that tryOutConnections holds one over the whole loop.
pub mod Sends
pub mod Broadcast
pub mod Trial
pub mod Attempts
pub mod Talks
pub mod Updates
pub mod Flood
pub mod Answers
pub mod Frame
pub mod Linked
pub mod Dial
use peerboot_cpp.Prelude.{
  ℕ, zero, suc, ◌+◌, ◌-◌, Bool, true, false, List, [], ◌∷◌, ◌++◌, ◌==◌, if◌then◌else◌,
}
use peerboot_cpp.Prelude.Int.{ℤ, pos, is_zero, int_eq}
use peerboot_cpp.Text.{Str, codes, str_eq}
use peerboot_cpp.Types.{PeerInfo, ErrorCode, err_ok}
use peerboot_cpp.TimeStamp.{now}
use peerboot_cpp.Store.{
  StoredPeer, UpdateResult, upd_updated_only_time, upd_no_change_needed, find_and_update, query,
}
use peerboot_cpp.Message.{
  Message, PeerUpdateMessage, QueryMessage, update, query as asks, peer_update_message,
  query_message,
}
use peerboot_cpp.World.{World, Env, Client, PeerWithId, notified}
use peerboot_cpp.Machine.{
  M, pure, ◌>>=◌, ◌>>◌, assert, client, act, trace, get_net, put_net, get_shell, new_client,
}
use peerboot_cpp.NetClient.{net_client_out, send_message, connect}

abbrev pub local_node_addr : Str
local_node_addr = codes "__LOCAL_NODE__"

-- TimeStamp::now()
abbrev pub clock : Env → M ℕ
clock env = do t ← trace; pure (now (env.seconds t))

-- Shell::doClientCallback
pub call_client : PeerInfo → M (Unit {0})
call_client peer = do
  shell ← get_shell
  if shell.has_callback then act (notified shell.peer peer) else pure tt

-- Shell::notifyFromPeboNet
unfoldable pub notify_from_pebo_net : PeerInfo → M (Unit {0})
unfolding call_client
notify_from_pebo_net peer = call_client peer

-- The source ends without returning its error code, which is undefined; it is taken as a return, since
-- the one caller does not use the value.
unfoldable pub do_client_callback : PeerInfo → M (Unit {0})
unfolding notify_from_pebo_net
do_client_callback peer = do net ← get_net; assert net.has_notify_cb; notify_from_pebo_net peer

unfoldable pub add_in_peer : Str → ℕ → M (Unit {0})
add_in_peer node_addr peer = do
  net ← get_net
  put_net
      (record net { peers_in = net.peers_in ++ record { node_addr = node_addr; peer = peer } ∷ [] })

unfoldable pub add_out_peer : Str → ℕ → M (Unit {0})
add_out_peer node_addr peer = do
  net ← get_net
  put_net (record net {
    peers_out = net.peers_out ++ record { node_addr = node_addr; peer = peer } ∷ [];
  })

unfoldable pub in_connection_received : Str → ℕ → M (Unit {0})
unfolding add_in_peer
in_connection_received node_addr peer = add_in_peer node_addr peer

-- The port 0 means 5000.
abbrev pub or_default : ℤ → ℤ
or_default port = if is_zero port then pos 5000 else port

unfoldable pub add_peer : Env → Str → ℤ → M (Unit {0})
unfolding add_out_peer net_client_out
add_peer env host port = do
  t ← trace
  let c = net_client_out (env.raw_state t) host (or_default port)
  id ← new_client c
  add_out_peer c.node_addr id

connect_all : Env → List PeerWithId → M (Unit {0})
unfolding connect
connect_all env [] = pure tt
connect_all env (p ∷ peers) = connect env p.peer >> connect_all env peers

-- The result of each connect is ignored.
unfoldable pub try_out_connections : Env → M (Unit {0})
unfolding connect_all
try_out_connections env = do net ← get_net; connect_all env net.peers_out

-- The loop of listenStarted over the ports 5000 to 5002: `rounds` are left, from 5000 + i on.
add_local_peers : Env → ℤ → ℕ → ℕ → M (Unit {0})
unfolding add_peer
add_local_peers env port zero i = pure tt
add_local_peers env port (suc rounds) i =
    let rest = add_local_peers env port rounds (i + 1) in
    if int_eq port (pos (5000 + i))
    then rest
    else (add_peer env (codes "127.0.0.1") (pos (5000 + i)) >> rest)

unfoldable pub listen_started : Env → ℤ → M (Unit {0})
unfolding add_local_peers try_out_connections
listen_started env port = do add_local_peers env port 3 0; try_out_connections env

-- The loop of doBroadcastMsg over a copy of the outgoing peers.
unfoldable pub send_to_all : Env → Message → Str → List PeerWithId → M (Unit {0})
unfolding send_message
send_to_all env msg origin [] = pure tt
send_to_all env msg origin (p ∷ peers) =
    let rest = send_to_all env msg origin peers in
    if str_eq p.node_addr origin then rest else (send_message env p.peer msg >> rest)

unfoldable pub do_broadcast_msg : Env → Message → Str → M ErrorCode
unfolding send_to_all
do_broadcast_msg env msg origin = do
  net ← get_net
  send_to_all env msg origin net.peers_out
  pure err_ok

unfoldable pub broadcast : Env → PeerInfo → M ErrorCode
unfolding do_broadcast_msg peer_update_message
broadcast env peer = do
  t ← clock env
  do_broadcast_msg env
      (peer_update_message t peer.service peer.endpoint peer.last_seen peer.is_removed 0)
      local_node_addr

unfoldable pub query_remote : Env → Str → M ErrorCode
unfolding do_broadcast_msg query_message
query_remote env service = do
  t ← clock env
  do_broadcast_msg env (query_message t service 0) local_node_addr

abbrev pub was_known : UpdateResult → Bool
was_known upd_updated_only_time = true
was_known upd_no_change_needed = true
was_known _ = false

abbrev pub info : PeerUpdateMessage → PeerInfo
info m = record {
  service = m.service;
  endpoint = m.endpoint;
  last_seen = m.last_seen;
  is_removed = m.is_removed;
}

-- What peerUpdateFromPeboPeer does with news.
unfoldable pub forward : Env → ℕ → PeerUpdateMessage → M (Unit {0})
unfolding do_client_callback do_broadcast_msg
forward env id m = do
  do_client_callback (info m)
  c ← client id
  do_broadcast_msg env (update m) c.node_addr
  pure tt

-- The store is written before the client and the other peers are told.
unfoldable pub peer_update_from_pebo_peer : Env → ℕ → PeerUpdateMessage → M (Unit {0})
unfolding forward
peer_update_from_pebo_peer env id m = do
  t ← clock env
  net ← get_net
  let (store, res) = find_and_update t net.store m.service m.endpoint m.is_removed m.last_seen
  put_net (record net { store = store })
  if was_known res then pure tt else forward env id m

-- The loop of doQuery over the store's answers.
unfoldable pub send_answers : Env → ℕ → List StoredPeer → M (Unit {0})
unfolding send_message peer_update_message
send_answers env id [] = pure tt
send_answers env id (p ∷ rest) = do
  t ← clock env
  send_message env id (peer_update_message t p.service p.endpoint p.last_seen p.is_removed 0)
  send_answers env id rest

-- An empty answer needs no case of its own.
unfoldable pub do_query : Env → ℕ → Str → M ErrorCode
unfolding send_answers
do_query env id service = do
  net ← get_net
  send_answers env id (query net.store service)
  pure err_ok

unfoldable pub query_from_pebo_peer : Env → ℕ → QueryMessage → M (Unit {0})
unfolding do_query
query_from_pebo_peer env id m = do_query env id m.service >> pure tt

-- The visitor of the message
unfoldable pub msg_from_pebo_peer : Env → ℕ → Message → M (Unit {0})
unfolding peer_update_from_pebo_peer query_from_pebo_peer
msg_from_pebo_peer env id (update m) = peer_update_from_pebo_peer env id m
msg_from_pebo_peer env id (asks m) = query_from_pebo_peer env id m
