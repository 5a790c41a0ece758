-- ===== src/Tests/Samples.antt =====
-- A node with an accepted connection and an outgoing one, and an outside on which all calls succeed.
use peerboot_cpp.Prelude.{true, false, some, [], ◌∷◌}
use peerboot_cpp.Prelude.Int.{pos, negsuc}
use peerboot_cpp.Text.{codes}
use peerboot_cpp.Types.{PeerInfo}
use peerboot_cpp.Store.{StoredPeer, Store}
use peerboot_cpp.Message.{PeerUpdateMessage}
use peerboot_cpp.World.{
  World, Env, Client, undefined, accepted, receiving, handle, incoming, outgoing, net_handler,
  running, af_inet,
}

abbrev pub calm : Env
calm = record {
  seconds = λ _. 1546300900;
  raw_state = λ _. undefined;
  uv_write = λ _ _ _. pos 0;
  uv_is_closing = λ _ _. false;
  uv_read_start = λ _ _. pos 0;
  uv_fileno = λ _ _. (pos 0, pos 3);
  uv_ip4_addr = λ _ _. pos 0;
  uv_tcp_connect = λ _ _. pos 0;
  uv_tcp_bind = λ _ _ _. pos 0;
  uv_listen = λ _ _ _. pos 0;
  uv_accept = λ _ _. pos 0;
  uv_tcp_getpeername =
      λ _ _. some (record { family = af_inet; raw_port = 7; remote_ip = some (codes "10.0.0.9") });
  uv_async_init = λ _. pos 0;
  uv_async_send = λ _. pos 0;
  uv_loop_close = λ _. negsuc 15;
  uv_walk = λ _. 1 ∷ 2 ∷ [];
}

-- Every write fails.
abbrev pub broken : Env
broken = record calm { uv_write = λ _ _ _. negsuc 31 }

-- Every port can be bound, and none can be listened on.
abbrev pub crowded : Env
crowded = record calm { uv_listen = λ _ _ _. negsuc 97 }

abbrev pub asker : Client
asker = record {
  direction = incoming;
  state = accepted;
  node_addr = codes "10.0.0.1:7";
  receive_buffer = [];
  stream = handle 1;
}

abbrev pub neighbour : Client
neighbour = record {
  direction = outgoing (codes "n2") (pos 5000);
  state = receiving;
  node_addr = codes "n2:5000";
  receive_buffer = [];
  stream = handle 2;
}

abbrev pub self : PeerInfo
self = record { service = codes "s"; endpoint = codes "me"; last_seen = 90; is_removed = false }

abbrev pub known_peer : StoredPeer
known_peer = record {
  service = codes "s";
  endpoint = codes "e1";
  added_time = 50;
  last_seen = 60;
  is_removed = false;
}

abbrev pub one_entry : Store
one_entry = (codes "s", (codes "e1", known_peer) ∷ []) ∷ []

abbrev pub node : World
node = record {
  clients = asker ∷ neighbour ∷ [];
  net = record {
    peers_in = record { node_addr = codes "10.0.0.1:7"; peer = 0 } ∷ [];
    peers_out = record { node_addr = codes "n2:5000"; peer = 1 } ∷ [];
    store = one_entry;
    has_notify_cb = true;
  };
  shell = record {
    inited = true;
    peer = self;
    has_callback = true;
    handler = net_handler running;
    has_pebo_net = true;
  };
  has_instance = true;
  trace = [];
  next_handle = 3;
}

abbrev pub no_node : World
no_node = record node { has_instance = false }

abbrev pub known_update : PeerUpdateMessage
known_update = record {
  created_time = 100;
  service = codes "s";
  endpoint = codes "e1";
  last_seen = 99;
  is_removed = false;
}

abbrev pub new_update : PeerUpdateMessage
new_update = record known_update { endpoint = codes "e2" }
