-- ===== src/Tests/NodeExamples.antt =====
-- A process and its events: the properties at a concrete input.
use peerboot_cpp.Prelude.{
  get_elem?, ℕ, ◌≡◌, refl, true, false, Option, none, some, List, [], ◌∷◌, ◌++◌, arith,
}
use peerboot_cpp.Prelude.Int.{pos}
use peerboot_cpp.Text.{Str, codes, is_space, str_eq}
use peerboot_cpp.Text.Decimal.{to_string}
use peerboot_cpp.Text.Cut.{Without}
use peerboot_cpp.SortedMap.{find}
use peerboot_cpp.Types.{PeerInfo, err_ok}
use peerboot_cpp.TimeStamp.{now}
use peerboot_cpp.Store.{find_peer}
use peerboot_cpp.Message.{Message, update, message_text}
use peerboot_cpp.Wire.RoundTrip.{IsPrintable}
use peerboot_cpp.Endpoint.{endpoint}
use peerboot_cpp.World.{
  Client, outgoing, sending, handle, World, Env, Act, closed_handle, PeerWithId, wrote,
}
use peerboot_cpp.PeboNet.{add_peer, listen_started, broadcast, query_remote, local_node_addr, info}
use peerboot_cpp.PeboNet.Sends.{framed}
use peerboot_cpp.PeboNet.Flood.{Knows}
use peerboot_cpp.NetClient.Receive.{on_read}
use peerboot_cpp.NetHandler.{start_handler, do_listen, on_new_connection}
use peerboot_cpp.NetHandler.Callbacks.{static_on_new_connection}
use peerboot_cpp.Shell
use peerboot_cpp.Shell.{add_peers, init_components, start_listening, init_new}
use peerboot_cpp.Library
use peerboot_cpp.Library.{init_ex_new, create_shell, start_shell}
use peerboot_cpp.Node
use peerboot_cpp.Node.{Event, run, fresh_process, Reach, start, later}
use peerboot_cpp.Node.Linked.{IsLinked}
use peerboot_cpp.Node.Reachable.{Reach-IsLinked}
use peerboot_cpp.Node.Relay.{Waits, greeting, relayed, on_read_relays}
use peerboot_cpp.NetClient.{send_message, net_client_out}
use peerboot_cpp.NetClient.Receive.Ready.{Ready}
use peerboot_cpp.NetClient.Receive.Outgoing.{on_read_outgoing_closes}
use peerboot_cpp.Sample.Peers.{no_peers}
use peerboot_cpp.Sample.Demo.{heard}
use peerboot_cpp.Sample.Hears.{on_read-heard}
use peerboot_cpp.Node.Path.{Occurs, WritesTo, Stop, Spreads, announced, broadcast-Spreads}
use mathlib.Core.List.Memᴰ
use peerboot_cpp.Node.Robust.{Relays, on_read_attempts}
use peerboot_cpp.Node.Joins.{IsUp, on_new_connection_relays}
use peerboot_cpp.NetHandler.Accept.{remote_address, welcomed}
use peerboot_cpp.Tests.Samples.{broken, calm, asker, node, new_update}

abbrev world_of : Option (Unit {0} × World) → World
world_of none = fresh_process
world_of (some (_, w)) = w

-- The client starts the library, and then another node connects.
abbrev booting : Event
booting = Node.init_ex (codes "s") (codes "me") true [] (pos 5000)

abbrev booted : World
booted = world_of (run calm booting fresh_process)

abbrev visited : World
visited = world_of (run calm (Node.new_connection true (pos 0)) booted)

booted-Reach : Reach calm booted
unfolding run Library.init_ex init_ex_new create_shell start_shell Shell.init init_new
    init_components add_peers start_listening Shell.start start_handler do_listen add_peer
    listen_started broadcast query_remote endpoint str_eq
booted-Reach = later booting start refl

visited-Reach : Reach calm visited
unfolding run Library.init_ex init_ex_new create_shell start_shell Shell.init init_new
    init_components add_peers start_listening Shell.start start_handler do_listen add_peer
    listen_started broadcast query_remote endpoint str_eq static_on_new_connection on_new_connection
visited-Reach = later (Node.new_connection true (pos 0)) booted-Reach refl

Reach-IsLinked_example : IsLinked visited
Reach-IsLinked_example = Reach-IsLinked calm visited-Reach

-- News of a peer arrives at the node.
pub zero_free : Without 0 (message_text (update new_update))
unfolding message_text to_string
zero_free = (
  refl,
  (
    refl,
    (
      refl,
      (
        refl,
        (
          refl,
          (
            refl,
            (
              refl,
              (refl, (refl, (refl, (refl, (refl, (refl, (refl, (refl, (refl, (refl, tt)))))))))),
            ),
          ),
        ),
      ),
    ),
  ),
)

pub new-IsPrintable : IsPrintable (update new_update)
unfolding is_space
new-IsPrintable = ((refl, tt), (refl, (refl, tt)), omega arith)

node-Waits : Waits 0 1 node asker (codes "s") (codes "e2")
unfolding find_peer find str_eq
node-Waits = record {
  ready = record { own = refl; peers = (refl, tt); notifies = refl };
  here = refl;
  accepts = refl;
  empty = refl;
  calls = refl;
  news = λ known. absurd (cc known);
}

on_read_relays_example :
    (w' : World) × (on_read calm 0 1 (pos 19) (some (framed (update new_update) ++ 0 ∷ 7 ∷ [])) node
      ≡ some (tt, w'))
    × (w'.trace ≡ node.trace ++ relayed node asker.node_addr new_update)
    × Knows w' (codes "s") (codes "e2") false
on_read_relays_example =
    on_read_relays calm 0 1 1 18 node asker new_update (7 ∷ []) (λ t h b. refl) node-Waits
      new-IsPrintable (omega arith) zero_free

-- The neighbour, to which the node writes
abbrev pub toward : PeerWithId
toward = record { node_addr = codes "n2:5000"; peer = 1 }

asker-WritesTo : WritesTo asker.node_addr node toward 2
unfolding str_eq
asker-WritesTo = record { listed = (0, refl); opens = refl }

local-WritesTo : WritesTo local_node_addr node toward 2
unfolding str_eq
local-WritesTo = record { listed = (0, refl); opens = refl }

abbrev stop_with : ℕ → Str → Stop (codes "s") (codes "e2")
stop_with nread junk = record {
  env = calm;
  world = node;
  id = 0;
  handle = 1;
  client = asker;
  read_handle = 1;
  nread = nread;
  junk = junk;
  next = toward;
  next_handle = 2;
  succeeds = λ t h b. refl;
  waits = node-Waits;
  leads = asker-WritesTo;
}

abbrev pub news : PeerInfo
news = info new_update

-- Two nodes hear of it, one after the other.
broadcast-Spreads_example :
    (w' : World) × (acts : List Act) × (sent : Str) × (broadcast calm news node ≡ some (err_ok, w'))
    × (w'.trace ≡ node.trace ++ acts)
    × Occurs (wrote 1 2 sent) acts
    × Spreads (announced calm node news) sent (stop_with 18 [] ∷ stop_with 4 (7 ∷ []) ∷ [])
unfolding now
broadcast-Spreads_example =
    broadcast-Spreads calm node news toward 2 (stop_with 18 [] ∷ stop_with 4 (7 ∷ []) ∷ [])
      (λ t h b. refl) (refl, tt) local-WritesTo new-IsPrintable (omega arith) zero_free

on_read-heard_example :
    (w' : World) × (on_read calm 0 1 (pos 19) (some (framed (update new_update) ++ 0 ∷ 7 ∷ [])) node
      ≡ some (tt, w'))
    × (find (codes "e2") (heard no_peers w'.trace) ≡ some (greeting new_update))
on_read-heard_example =
    on_read-heard calm 0 1 1 18 node asker new_update (7 ∷ []) (λ t h b. refl) node-Waits
      new-IsPrintable (omega arith) zero_free

-- The first outgoing connection of the process that was started
abbrev first_out : Client
first_out = record {
  direction = outgoing (codes "node1.peerboot.io") (pos 5000);
  state = sending;
  node_addr = codes "node1.peerboot.io:5000";
  receive_buffer = [];
  stream = handle 1;
}

booted-Ready : Ready 0 1 booted
unfolding run Library.init_ex init_ex_new create_shell start_shell Shell.init init_new
    init_components add_peers start_listening Shell.start start_handler do_listen add_peer
    listen_started broadcast query_remote endpoint str_eq net_client_out
booted-Ready = record { own = refl; peers = (refl, (refl, (refl, (refl, tt)))); notifies = refl }

first_out_here : get_elem? booted.clients 0 ≡ some first_out
unfolding run Library.init_ex init_ex_new create_shell start_shell Shell.init init_new
    init_components add_peers start_listening Shell.start start_handler do_listen add_peer
    listen_started broadcast query_remote endpoint str_eq to_string net_client_out
first_out_here = refl

on_read_outgoing_closes_example :
    (w' : World) × (acts : List Act) × (on_read calm 0 1
        (pos 19)
        (some (framed (update new_update) ++ 0 ∷ []))
        booted
      ≡ some (tt, w'))
    × (w'.trace ≡ (booted.trace ++ acts) ++ closed_handle 1 ∷ [])
    × ((env' : Env) (msg : Message) → send_message env' 0 msg w' ≡ some (pos 0, w'))
on_read_outgoing_closes_example =
    on_read_outgoing_closes calm 0 1 1 18 (codes "node1.peerboot.io") (pos 5000) booted first_out
      new_update [] (λ t h b. refl) (λ t. refl) booted-Ready (Reach-IsLinked calm booted-Reach)
      first_out_here refl refl new-IsPrintable (omega arith) zero_free

-- The write to the neighbour fails.
on_read_attempts_example :
    (w' : World) × (on_read broken 0 1
        (pos 19)
        (some (framed (update new_update) ++ 0 ∷ 7 ∷ []))
        node
      ≡ some (tt, w'))
    × Relays node w' new_update toward 2
    × Knows w' (codes "s") (codes "e2") false
unfolding str_eq
on_read_attempts_example =
    on_read_attempts broken 0 1 1 18 node asker new_update (7 ∷ []) toward 2 node-Waits
      (Memᴰ.head refl) refl new-IsPrintable (omega arith) zero_free

joined : IsUp node
unfolding str_eq
joined = record { has_pebo_net = refl; calls = refl; notifies = refl; peers = (refl, tt) }

on_new_connection_relays_example :
    (on_new_connection calm (pos 0) node ≡ some (tt, welcomed calm node))
    × ((w' : World) × (on_read calm 2 3
            (pos 19)
            (some (framed (update new_update) ++ 0 ∷ 7 ∷ []))
            (welcomed calm node)
          ≡ some (tt, w'))
        × (w'.trace
            ≡ (welcomed calm node).trace
              ++ relayed (welcomed calm node) (remote_address calm node) new_update)
        × Knows w' (codes "s") (codes "e2") false)
on_new_connection_relays_example =
    on_new_connection_relays calm 0 3 18 node new_update (7 ∷ []) (λ t h b. refl) joined refl refl
      node-Waits.news new-IsPrintable (omega arith) zero_free
