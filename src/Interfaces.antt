-- ===== src/Interfaces.antt =====
-- The interfaces by which the components know each other, as records of their methods
-- (src/peerboot/message.hpp, ipebo_net.hpp, ipebo_peer.hpp, ipebo_peer_cb.hpp, inet_handler.hpp, istore.hpp and the
-- first class of uv_socket.hpp). A component's class is a value of its interface: see
-- Interfaces/Classes. A peer that is passed by reference is a connection's position.
pub mod Classes
pub mod Peers
pub mod Stores
use peerboot_cpp.Prelude.{ℕ, Bool, Option, List}
use peerboot_cpp.Prelude.Int.{ℤ}
use peerboot_cpp.Text.{Str}
use peerboot_cpp.Types.{PeerInfo, ErrorCode}
use peerboot_cpp.Store.{StoredPeer, UpdateResult}
use peerboot_cpp.Message.{Message, PeerUpdateMessage, QueryMessage, update, query as asks}
use peerboot_cpp.Machine.{M, pure}

pub record IPeboNetCb : Type 0 where
  pub notify_from_pebo_net : PeerInfo → M (Unit {0})

pub record IPeboPeerCb : Type 0 where
  pub msg_from_pebo_peer : ℕ → Message → M (Unit {0})

pub record IPeboPeer : Type 0 where
  pub set_notify_cb : IPeboPeerCb → M (Unit {0})
  pub send_message : Message → M ℤ
  pub get_node_addr : M Str

-- A visitor of messages, and how a message calls it (BaseMessage::visit).
pub record MessageVisitorBase : Type 0 where
  pub peer_update : PeerUpdateMessage → M (Unit {0})
  pub query : QueryMessage → M (Unit {0})

abbrev pub visit : MessageVisitorBase → Message → M (Unit {0})
visit visitor (update m) = visitor.peer_update m
visit visitor (asks m) = visitor.query m

-- It is an IPeboPeerCb too. The callback is the shell's: `set_notify_cb` takes whether there is one.
pub record IPeboNet : Type 0 where
  pub peer_cb : IPeboPeerCb
  pub set_notify_cb : Bool → M (Unit {0})
  pub start : M ErrorCode
  pub stop : M ErrorCode
  pub listen_started : ℤ → M (Unit {0})
  pub add_peer : Str → ℤ → M (Unit {0})
  pub in_connection_received : Str → ℕ → M (Unit {0})
  pub broadcast : PeerInfo → M ErrorCode
  pub query_remote : Str → M ErrorCode

-- INetHandler::start and INetHandler::stop
pub record INetHandler : Type 0 where
  pub start : ℤ → ℤ → M ℤ
  pub stop : M (Unit {0})

-- A store of the type `Store`; the time is an argument of find_and_update.
pub record IStore (Store : Type 0) : Type 0 where
  pub find_and_update : ℕ → Store → Str → Str → Bool → ℕ → Store × UpdateResult
  pub find_peer : Store → Str → Str → Option StoredPeer
  pub query : Store → Str → List StoredPeer
  pub clear : Store → Store

-- What libuv's callbacks are passed on to: with a handle, the number of bytes and the buffer for a
-- read, and with a status.
pub record IUvSocket : Type 0 where
  pub on_connect : ℕ → ℤ → M (Unit {0})
  pub on_read : ℕ → ℤ → Option Str → M (Unit {0})
  pub on_write : ℤ → M (Unit {0})
  pub on_new_connection : ℤ → M (Unit {0})
  pub on_close : M (Unit {0})
  pub on_timer : M (Unit {0})

-- The methods' empty bodies, which a class may override.
abbrev pub uv_socket : IUvSocket
uv_socket = record {
  on_connect = λ h status. pure tt;
  on_read = λ h nread base. pure tt;
  on_write = λ status. pure tt;
  on_new_connection = λ status. pure tt;
  on_close = pure tt;
  on_timer = pure tt;
}
