-- ===== src/World.antt =====
-- The objects of one process and what surrounds them. A `World` holds the connections (shared by
-- reference: peers name them by their position in `clients`), the PeerBoot network with its store,
-- the shell with its network handler, and the trace of all calls that leave the program. An `Env`
-- is the outside: libuv and the clock, whose answers may depend on everything done before.
use peerboot_cpp.Prelude.{ℕ, Bool, List, Option}
use peerboot_cpp.Prelude.Int.{ℤ}
use peerboot_cpp.Text.{Str}
use peerboot_cpp.Types.{PeerInfo}
use peerboot_cpp.Store.{Store}

-- NetClientBase::State
pub data State : Type 0 where
  undefined not_connected connecting connected accepted sending : State
  sent receiving received closing closed : State

-- myUvStream. Before `setUvStream` an outgoing connection's pointer is uninitialised: `wild`.
pub data Stream : Type 0 where
  wild null : Stream
  handle : ℕ → Stream

-- The subclasses NetClientIn and NetClientOut
pub data Direction : Type 0 where
  incoming : Direction
  outgoing : Str → ℤ → Direction

pub record Client : Type 0 where
  pub direction : Direction
  pub state : State
  pub node_addr : Str
  pub receive_buffer : Str
  pub stream : Stream

-- PeboNet::PeerInWithId and PeboNet::PeerOutWithId: the address, and the connection's position.
pub record PeerWithId : Type 0 where
  pub node_addr : Str
  pub peer : ℕ

pub record PeboNet : Type 0 where
  pub peers_in : List PeerWithId
  pub peers_out : List PeerWithId
  pub store : Store
  -- myPeboNetCB != nullptr; it is the shell.
  pub has_notify_cb : Bool

-- The background thread of a NetHandler. Until it is started, `myUvAsync` is uninitialised too.
pub data Thread : Type 0 where
  not_started running joined : Thread

-- myNetHandler: none yet, the EmptyNetHandler, or a NetHandler
pub data Handler : Type 0 where
  no_handler empty_handler : Handler
  net_handler : Thread → Handler

pub record Shell : Type 0 where
  pub inited : Bool
  pub peer : PeerInfo
  pub has_callback : Bool
  pub handler : Handler
  -- myPeboNet != nullptr
  pub has_pebo_net : Bool

-- What leaves the program, in the order in which it happens.
pub data Act : Type 0 where
  -- uv_write by a connection on a handle
  wrote : ℕ → ℕ → Str → Act
  -- uv_read_start, uv_close and uv_tcp_connect on a handle
  read_started : ℕ → Act
  closed_handle : ℕ → Act
  connect_requested : ℕ → Str → ℤ → Act
  -- uv_tcp_bind and uv_listen on a handle and a port
  bound : ℕ → ℤ → Act
  listened : ℕ → ℤ → Act
  -- uv_accept on a new handle
  accepted_on : ℕ → Act
  -- the client's callback, called with itself and the peer
  notified : PeerInfo → PeerInfo → Act

pub record World : Type 0 where
  pub clients : List Client
  pub net : PeboNet
  pub shell : Shell
  -- global_instance != nullptr, of src/peerboot/lib.cpp; the instance is `shell`.
  pub has_instance : Bool
  pub trace : List Act
  -- the next handle that `new uv_tcp_t()` returns
  pub next_handle : ℕ

-- A socket's address family: AF_INET, AF_INET6, or another
pub data Family : Type 0 where
  af_inet af_inet6 other_family : Family

-- A peer's address as uv_tcp_getpeername leaves it: the family, sin_port or sin6_port as a number, and
-- the text that uv_inet_ntop makes of the address, if it succeeds.
pub record SockAddr : Type 0 where
  pub family : Family
  pub raw_port : ℕ
  pub remote_ip : Option Str

-- The results of libuv's functions and the clock, given what happened before. `raw_state` is what
-- the uninitialised `myState` of a new outgoing connection holds.
pub record Env : Type 0 where
  pub seconds : List Act → ℕ
  pub raw_state : List Act → State
  pub uv_write : List Act → ℕ → Str → ℤ
  pub uv_is_closing : List Act → ℕ → Bool
  pub uv_read_start : List Act → ℕ → ℤ
  pub uv_fileno : List Act → ℕ → ℤ × ℤ
  pub uv_ip4_addr : Str → ℤ → ℤ
  pub uv_tcp_connect : List Act → ℕ → ℤ
  pub uv_tcp_bind : List Act → ℕ → ℤ → ℤ
  pub uv_listen : List Act → ℕ → ℤ → ℤ
  pub uv_accept : List Act → ℕ → ℤ
  pub uv_tcp_getpeername : List Act → ℕ → Option SockAddr
  pub uv_async_init : List Act → ℤ
  pub uv_async_send : List Act → ℤ
  -- the end of the background thread: uv_loop_close of its loop, and the handles that uv_walk visits
  pub uv_loop_close : List Act → ℤ
  pub uv_walk : List Act → List ℕ
