-- ===== src/PeboNet/Linked.antt =====
-- The methods of the PeerBoot network, and the links of the node.
use peerboot_cpp.Prelude.{
  ℕ, zero, suc, ◌+◌, Bool, true, false, List, [], ◌∷◌, ◌++◌, length, All-append,
}
use peerboot_cpp.Prelude.Int.{ℤ, pos, int_eq}
use peerboot_cpp.Text.{Str, codes, str_eq}
use peerboot_cpp.TimeStamp.{now}
use peerboot_cpp.Types.{PeerInfo, err_ok}
use peerboot_cpp.Message.{
  Message, PeerUpdateMessage, QueryMessage, update, query as asks, peer_update_message,
  query_message,
}
use peerboot_cpp.Store.{StoredPeer, find_and_update, query}
use peerboot_cpp.Store.WellFormed.{find_and_update-IsWellFormed}
use peerboot_cpp.World.{World, Env, PeerWithId, notified}
use peerboot_cpp.Machine.{pure, act, assert, get_net, get_shell, trace, ◌>>◌}
use peerboot_cpp.Machine.Keeps.{client-Keeps, done_Keeps, then_Keeps}
use peerboot_cpp.Node.Linked.{IsLinked, Links, append_IsLinked, link_last}
use peerboot_cpp.Node.Safe.{
  Kept, Kept-trans, Safe, bind-Safe, pure-Safe, if-Safe, assert-Safe, act-Safe, trace-Safe,
  get_net-Safe, get_shell-Safe, store_IsLinked,
}
use peerboot_cpp.NetClient.{net_client_out, send_message, connect}
use peerboot_cpp.NetClient.Linked.{send_message-Safe, connect-Safe}
use peerboot_cpp.PeboNet.{
  clock, call_client, do_client_callback, add_out_peer, or_default, add_peer, connect_all,
  try_out_connections, add_local_peers, listen_started, send_to_all, do_broadcast_msg,
  local_node_addr, broadcast, query_remote, was_known, info, forward, peer_update_from_pebo_peer,
  send_answers, do_query, query_from_pebo_peer, msg_from_pebo_peer,
}

pub clock-Safe : (env : Env) → Safe (clock env)
clock-Safe env = bind-Safe trace _ trace-Safe (λ t. pure-Safe (now (env.seconds t)))

call_client-Safe : (peer : PeerInfo) → Safe (call_client peer)
unfolding call_client
call_client-Safe peer = bind-Safe get_shell _ get_shell-Safe λ shell.
    if-Safe shell.has_callback (act (notified shell.peer peer)) (pure tt) (act-Safe _)
      (pure-Safe tt)

do_client_callback-Safe : (peer : PeerInfo) → Safe (do_client_callback peer)
unfolding do_client_callback
do_client_callback-Safe peer = bind-Safe get_net _ get_net-Safe λ net.
    bind-Safe (assert net.has_notify_cb) _ (assert-Safe net.has_notify_cb)
      (λ _. call_client-Safe peer)

-- A new entry of the outgoing peers, and one of the incoming peers.
pub out_IsLinked :
    {w : World} (p : PeerWithId)
    → Links true w.clients p
    → IsLinked w
    → IsLinked (record w { net = record w.net { peers_out = w.net.peers_out ++ p ∷ [] } })
out_IsLinked {w} p link l = record {
  fresh = l.fresh;
  apart = l.apart;
  outs = All-append (Links true w.clients) w.net.peers_out (p ∷ []) l.outs (link, tt);
  ins = l.ins;
  filed = l.filed;
}

pub in_IsLinked :
    {w : World} (p : PeerWithId)
    → Links false w.clients p
    → IsLinked w
    → IsLinked (record w { net = record w.net { peers_in = w.net.peers_in ++ p ∷ [] } })
in_IsLinked {w} p link l = record {
  fresh = l.fresh;
  apart = l.apart;
  outs = l.outs;
  ins = All-append (Links false w.clients) w.net.peers_in (p ∷ []) l.ins (link, tt);
  filed = l.filed;
}

pub add_peer-Safe : (env : Env) (host : Str) (port : ℤ) → Safe (add_peer env host port)
unfolding add_peer add_out_peer net_client_out
add_peer-Safe env host port w =
    let c = net_client_out (env.raw_state w.trace) host (or_default port) in
    done_Keeps Kept w _ tt λ l.
      out_IsLinked (record { node_addr = c.node_addr; peer = length w.clients })
        (link_last w.clients c) (append_IsLinked w c (λ h e. absurd (cc e)) l)

connect_all-Safe : (env : Env) (peers : List PeerWithId) → Safe (connect_all env peers)
unfolding connect_all
connect_all-Safe env [] = pure-Safe tt
connect_all-Safe env (p ∷ peers) =
    bind-Safe (connect env p.peer) _ (connect-Safe env p.peer) (λ _. connect_all-Safe env peers)

add_local_peers-Safe :
    (env : Env) (port : ℤ) (rounds i : ℕ) → Safe (add_local_peers env port rounds i)
unfolding add_local_peers
add_local_peers-Safe env port zero i = pure-Safe tt
add_local_peers-Safe env port (suc rounds) i =
    let rest = add_local_peers-Safe env port rounds (i + 1) in
    if-Safe (int_eq port (pos (5000 + i))) (add_local_peers env port rounds (i + 1))
      (add_peer env (codes "127.0.0.1") (pos (5000 + i)) >> add_local_peers env port rounds (i + 1))
      rest
      (bind-Safe (add_peer env (codes "127.0.0.1") (pos (5000 + i))) _
        (add_peer-Safe env (codes "127.0.0.1") (pos (5000 + i))) (λ _. rest))

pub listen_started-Safe : (env : Env) (port : ℤ) → Safe (listen_started env port)
unfolding listen_started try_out_connections
listen_started-Safe env port =
    bind-Safe (add_local_peers env port 3 0) _ (add_local_peers-Safe env port 3 0)
      λ _. bind-Safe get_net _ get_net-Safe (λ net. connect_all-Safe env net.peers_out)

send_to_all-Safe :
    (env : Env) (msg : Message) (origin : Str) (peers : List PeerWithId)
    → Safe (send_to_all env msg origin peers)
unfolding send_to_all
send_to_all-Safe env msg origin [] = pure-Safe tt
send_to_all-Safe env msg origin (p ∷ peers) =
    let rest = send_to_all-Safe env msg origin peers in
    if-Safe (str_eq p.node_addr origin) (send_to_all env msg origin peers)
      (send_message env p.peer msg >> send_to_all env msg origin peers) rest
      (bind-Safe (send_message env p.peer msg) _ (send_message-Safe env p.peer msg) (λ _. rest))

do_broadcast_msg-Safe :
    (env : Env) (msg : Message) (origin : Str) → Safe (do_broadcast_msg env msg origin)
unfolding do_broadcast_msg
do_broadcast_msg-Safe env msg origin = bind-Safe get_net _ get_net-Safe λ net.
    bind-Safe (send_to_all env msg origin net.peers_out) _
      (send_to_all-Safe env msg origin net.peers_out) (λ _. pure-Safe err_ok)

pub broadcast-Safe : (env : Env) (peer : PeerInfo) → Safe (broadcast env peer)
unfolding broadcast
broadcast-Safe env peer = bind-Safe (clock env) _ (clock-Safe env) (λ t.
    do_broadcast_msg-Safe env
      (peer_update_message t peer.service peer.endpoint peer.last_seen peer.is_removed 0)
      local_node_addr)

pub query_remote-Safe : (env : Env) (service : Str) → Safe (query_remote env service)
unfolding query_remote
query_remote-Safe env service =
    bind-Safe (clock env) _ (clock-Safe env)
      (λ t. do_broadcast_msg-Safe env (query_message t service 0) local_node_addr)

forward-Safe : (env : Env) (id : ℕ) (m : PeerUpdateMessage) → Safe (forward env id m)
unfolding forward
forward-Safe env id m =
    bind-Safe (do_client_callback (info m)) _ (do_client_callback-Safe (info m)) λ _ w.
      client-Keeps Kept id _ w λ c _.
        bind-Safe (do_broadcast_msg env (update m) c.node_addr) _
          (do_broadcast_msg-Safe env (update m) c.node_addr) (λ _. pure-Safe tt) w

-- The store is written, and stays well-formed.
pub stored-Kept :
    (t : ℕ) (s e : Str) (is_removed : Bool) (seen : ℕ) (w : World)
    → Kept w (record w {
      net = record w.net { store = (find_and_update t w.net.store s e is_removed seen).0 };
    })
stored-Kept t s e is_removed seen w l =
    store_IsLinked (find_and_update t w.net.store s e is_removed seen).0
      (find_and_update-IsWellFormed t w.net.store s e is_removed seen l.filed) l

peer_update_from_pebo_peer-Safe :
    (env : Env) (id : ℕ) (m : PeerUpdateMessage) → Safe (peer_update_from_pebo_peer env id m)
unfolding peer_update_from_pebo_peer
peer_update_from_pebo_peer-Safe env id m w =
    let t = now (env.seconds w.trace) in
    let found = find_and_update t w.net.store m.service m.endpoint m.is_removed m.last_seen in
    let v : World = record w { net = record w.net { store = found.0 } } in
    then_Keeps Kept Kept-trans w v _ (stored-Kept t m.service m.endpoint m.is_removed m.last_seen w)
      (if-Safe (was_known found.1) (pure tt) (forward env id m) (pure-Safe tt)
        (forward-Safe env id m) v)

send_answers-Safe :
    (env : Env) (id : ℕ) (peers : List StoredPeer) → Safe (send_answers env id peers)
unfolding send_answers
send_answers-Safe env id [] = pure-Safe tt
send_answers-Safe env id (p ∷ rest) = bind-Safe (clock env) _ (clock-Safe env) λ t.
    bind-Safe
      (send_message env id (peer_update_message t p.service p.endpoint p.last_seen p.is_removed 0))
      _ (send_message-Safe env id _) (λ _. send_answers-Safe env id rest)

query_from_pebo_peer-Safe :
    (env : Env) (id : ℕ) (m : QueryMessage) → Safe (query_from_pebo_peer env id m)
unfolding query_from_pebo_peer do_query
query_from_pebo_peer-Safe env id m =
    bind-Safe (do_query env id m.service) _
      (bind-Safe get_net _ get_net-Safe λ net.
        bind-Safe (send_answers env id (query net.store m.service)) _ (send_answers-Safe env id _)
          (λ _. pure-Safe err_ok))
      (λ _. pure-Safe tt)

pub msg_from_pebo_peer-Safe :
    (env : Env) (id : ℕ) (msg : Message) → Safe (msg_from_pebo_peer env id msg)
unfolding msg_from_pebo_peer
msg_from_pebo_peer-Safe env id (update m) = peer_update_from_pebo_peer-Safe env id m
msg_from_pebo_peer-Safe env id (asks m) = query_from_pebo_peer-Safe env id m
