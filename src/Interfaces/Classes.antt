-- ===== src/Interfaces/Classes.antt =====
-- The classes as values of their interfaces, and what libuv and the shell call through these.
use peerboot_cpp.Prelude.{ℕ, ◌≡◌, refl, Bool, Option, none, some}
use peerboot_cpp.Prelude.Int.{ℤ, pos}
use peerboot_cpp.Text.{Str}
use peerboot_cpp.Types.{ErrorCode, err_ok}
use peerboot_cpp.World.{Env, Handler, Thread, no_handler, empty_handler, net_handler}
use peerboot_cpp.Machine.{M, pure, fault, ◌>>=◌, client, get_net, put_net}
use peerboot_cpp.Message.{Message, update, query as asks}
use peerboot_cpp.NetClient.{on_write, on_close, on_connect, send_message}
use peerboot_cpp.NetClient.Receive.{on_read}
use peerboot_cpp.NetHandler.{
  start_net, start_handler, stop_uv_loop, stop_handler, on_new_connection,
}
use peerboot_cpp.PeboNet
use peerboot_cpp.PeboNet.{
  msg_from_pebo_peer, peer_update_from_pebo_peer, query_from_pebo_peer, listen_started,
  in_connection_received, broadcast, query_remote, notify_from_pebo_net,
}
use peerboot_cpp.Interfaces.{
  MessageVisitorBase, visit, INetHandler, IPeboNet, IPeboNetCb, IPeboPeer, IUvSocket, uv_socket,
}

-- NetClientBase as an IUvSocket, and what NetClientOut adds
abbrev pub net_client_socket : Env → ℕ → IUvSocket
net_client_socket env id = record uv_socket {
  on_read = on_read env id;
  on_write = on_write env id;
  on_close = on_close id;
}

abbrev pub net_client_out_socket : Env → ℕ → IUvSocket
net_client_out_socket env id = record (net_client_socket env id) { on_connect = on_connect env id }

-- NetHandler as an IUvSocket
abbrev pub net_handler_socket : Env → IUvSocket
net_handler_socket env = record uv_socket { on_new_connection = on_new_connection env }

abbrev pub get_node_addr : ℕ → M Str
get_node_addr id = do c ← client id; pure c.node_addr

-- NetClientBase::setNotifyCB must not be called.
abbrev pub net_client_peer : Env → ℕ → IPeboPeer
net_client_peer env id = record {
  set_notify_cb = λ cb. fault;
  send_message = send_message env id;
  get_node_addr = get_node_addr id;
}

-- PeboNet::setNotifyCB
abbrev pub set_notify_cb : Bool → M (Unit {0})
set_notify_cb given = do net ← get_net; put_net (record net { has_notify_cb = given })

abbrev pub start_pebo_net : M ErrorCode
start_pebo_net = pure err_ok

abbrev pub stop_pebo_net : M ErrorCode
stop_pebo_net = pure err_ok

abbrev pub pebo_net : Env → IPeboNet
pebo_net env = record {
  peer_cb = record { msg_from_pebo_peer = msg_from_pebo_peer env };
  set_notify_cb = set_notify_cb;
  start = start_pebo_net;
  stop = stop_pebo_net;
  listen_started = listen_started env;
  add_peer = PeboNet.add_peer env;
  in_connection_received = in_connection_received;
  broadcast = broadcast env;
  query_remote = query_remote env;
}

-- Shell as an IPeboNetCb
abbrev pub shell_callback : IPeboNetCb
shell_callback = record { notify_from_pebo_net = notify_from_pebo_net }

abbrev pub empty_net_handler : INetHandler
empty_net_handler = record { start = λ port tries. pure (pos 0); stop = pure tt }

abbrev pub real_net_handler : Env → Thread → INetHandler
real_net_handler env thread = record {
  start = start_net env thread;
  stop = stop_uv_loop env thread;
}

-- What `myNetHandler` points to.
abbrev pub handler_class : Env → Handler → Option INetHandler
handler_class env no_handler = none
handler_class env empty_handler = some empty_net_handler
handler_class env (net_handler thread) = some (real_net_handler env thread)

abbrev pub start_through : Option INetHandler → ℤ → ℤ → M ℤ
start_through none port tries = fault
start_through (some handler) port tries = handler.start port tries

abbrev pub stop_through : Option INetHandler → M (Unit {0})
stop_through none = fault
stop_through (some handler) = handler.stop

-- The shell starts and stops its handler through the interface.
start_handler-start_through :
    (env : Env) (handler : Handler) (port tries : ℤ)
    → start_handler env handler port tries ≡ start_through (handler_class env handler) port tries
unfolding start_handler
start_handler-start_through env no_handler port tries = refl
start_handler-start_through env empty_handler port tries = refl
start_handler-start_through env (net_handler thread) port tries = refl

stop_handler-stop_through :
    (env : Env) (handler : Handler)
    → stop_handler env handler ≡ stop_through (handler_class env handler)
unfolding stop_handler
stop_handler-stop_through env no_handler = refl
stop_handler-stop_through env empty_handler = refl
stop_handler-stop_through env (net_handler thread) = refl

-- PeboNet::FromPeerMessageVisitor, which msgFromPeboPeer sends through the message
abbrev pub from_peer_message_visitor : Env → ℕ → MessageVisitorBase
from_peer_message_visitor env id = record {
  peer_update = peer_update_from_pebo_peer env id;
  query = query_from_pebo_peer env id;
}

msg_from_pebo_peer-visit :
    (env : Env) (id : ℕ) (msg : Message)
    → msg_from_pebo_peer env id msg ≡ visit (from_peer_message_visitor env id) msg
unfolding msg_from_pebo_peer
msg_from_pebo_peer-visit env id (update m) = refl
msg_from_pebo_peer-visit env id (asks m) = refl
