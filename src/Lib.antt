-- ===== src/Lib.antt =====
-- PeerBoot: a library by which the clients of a peer-to-peer service find each other.
--
-- The program, and how its parts interact. A process has one shell (Shell), made by the public
-- functions init, initEx and deinit. The shell owns a store of peers (Store), a network handler
-- (NetHandler), which listens and accepts connections in the event loop of libuv, and the PeerBoot
-- network (PeboNet), which keeps the node's connections (NetClientIn for accepted ones, NetClientOut
-- for outgoing ones) and floods news to them. A connection cuts the bytes that it receives into
-- lines, reads each line as a message, and hands it to the network; that asks the store whether it is
-- news, and if it is, tells the client through the shell and broadcasts it. A query is answered from
-- the store.
--
-- The files, and the code that they model:
--   Prelude, Text and SortedMap: the native numbers' helpers, byte strings with std::stoi,
--     std::to_string and reading words from a stream, and std::map as a list that is sorted by key.
--   Types: the errors and the peer of src/include/peerboot.hpp.
--   TimeStamp: src/peerboot/timestamp.cpp, with the wrap-around of uint32_t.
--   Store: src/peerboot/istore.hpp, store.hpp and store.cpp. Store::findAndUpdate is
--     `find_and_update`, and so on for the other methods; Store/Lookup, Store/WellFormed, Store/Query
--     and Store/Count have the proofs.
--   Message: src/peerboot/message.hpp and message.cpp. The subclasses are constructors.
--   Endpoint: src/peerboot/endpoint.cpp.
--   Wire: what a received line means, from NetClientBase::doProcessReceivedBuffer of
--     src/peerboot/net_client.cpp. Wire/RoundTrip reads what Message writes; Wire/Frames is about the
--     cutting of bytes into lines.
--   World: the objects of a process as one state. A connection is named by its position in a list, as
--     the program's peers share it by reference; `Env` is what lies outside.
--   Machine: methods as functions on that state that may fail.
--   NetClient: src/peerboot/net_client.cpp, with its receiving side in NetClient/Receive and the
--     static functions that libuv calls in NetClient/Callbacks.
--   PeboNet: src/peerboot/pebo_net.cpp, and the shell's callback to the client.
--   NetHandler: src/peerboot/net_handler.cpp and empty_net_handler.cpp. NetHandler/Loop is the loop
--     object of libuv and the background thread, with a state of its own.
--   Shell: src/peerboot/shell.cpp.
--   Library: src/peerboot/lib.cpp.
--   WriteRequest: src/peerboot/uv_socket.hpp and uv_socket.cpp.
--   Node: a whole process, driven by calls of the library and by callbacks of the event loop in
--     any order (`Event`, `run`, `Reach`). Node/Linked has the invariant, and the Linked modules
--     of the components show that their methods keep it; Node/Relay, Node/Robust and Node/Path
--     are about news that travels from node to node; in Node/Robust writes may fail, as in
--     PeboNet/Attempts; Node/Joins goes from an accepted connection to its first message.
--   Interfaces: the abstract classes of src/peerboot/message.hpp, ipebo_net.hpp, ipebo_peer.hpp,
--     ipebo_peer_cb.hpp, inet_handler.hpp, istore.hpp and uv_socket.hpp as records of their
--     methods. Interfaces/Classes has the classes as values of them, Interfaces/Peers answers a
--     query through a peer's interface, and Interfaces/Stores has the contract of a store.
--   Network: several nodes. What one writes over a connection is under way until the node at the
--     other end reads it (`deliver`), in any order; which connections belong together is a
--     parameter. Network/Flooding is the abstract specification, the flooding of a graph, with
--     its counts in Ends and its coverage in Covers. Network/View says what hearing of a peer
--     leaves as it is in a node, Network/Hears what a node does with an update, news or not;
--     Network/Graph says when a network is in order, Network/Simulates relates the nodes to the
--     specification; Network/Completes is about completed writes (`finish`,
--     NetClientBase::onWrite), Network/Told about what the clients are told, and
--     Network/Announcement and Network/Outcome about what becomes of an announcement.
--   Sample: src/sample/demoapp and src/sample/sampleclientapp, two clients of the library.
--   Tests: sample worlds, tests, and the properties at concrete inputs.
--
-- The outside. libuv, the clock and the operating system are the fields of `Env`: functions of all
-- that the program has done before, the trace of the state. What leaves the program (writes, reads
-- that are started, closed handles, connection requests, ports, calls of the client) is added to that
-- trace in order. A failed assert, an uncaught exception and undefined behaviour, such as the use of
-- an uninitialised pointer or the join of a thread that does not run, are a fault, `none`. There
-- are two exceptions: PeboNet::doClientCallback and the last path of NetClientBase::close end without
-- the return that their types ask for, which is undefined, and which is taken as a return of a value
-- that nobody uses. Each method is one step; the callbacks of libuv are functions, which the event
-- loop calls one at a time. Where reads can be started, this includes a stream that is being read
-- already: libuv documents UV_EALREADY for that from 1.38 on; earlier versions accept it.
--
-- Bounds and fuel. `to_string` makes at most ten digits, enough for every uint32_t and int. The loop
-- over a received buffer has one more round than the buffer has bytes; each round takes a byte or
-- more off it. The indices of the program are `int`: buffers are shorter than 2 ^ 31 bytes. A port of
-- `do_listen` that exceeds an `int` is not expressed: the sum is one of unbounded integers. The
-- thread's loop of `do_bg_thread` runs on fuel; if each uv_run returns and the stop flag is set by the
-- k-th act, k + 1 rounds are enough.
--
-- Reads. onRead makes a string of the read buffer up to its first zero byte, and the buffer is not
-- cleared: nothing in the code puts a zero byte behind the bytes that arrive. `on_read` is given all of
-- the buffer's memory; the theorems on what arrives ask that a zero byte stands right behind it, and
-- leave open what comes then.
--
-- Stopping. NetHandler::stop joins the background thread, and so waits for the end of runLoop, which
-- closes the handles of a busy loop: `stop_uv_loop` has these acts, with the handles from `Env`.
-- uv_async_send and uv_stop are taken to make uv_run return; that uv_stop is called after the wake-up,
-- from another thread than the loop's, so that the loop may sleep again before it sees it, is not
-- modelled. In NetHandler/Loop, uv_run may also not return. When a shell is deinitialised its network
-- is destroyed with its connections. In the model these stay in the list of connections, where a new
-- network does not refer to them; the events of Node may still name them, so that what holds of every
-- reachable world holds of more worlds than the process has.
--
-- Not modelled: console output, except that of the sample programs' callback and parameters; the
-- memory of libuv's requests and handles; what libuv does inside uv_run, except that it makes the
-- callbacks, which are the events of Node; two threads in the same connection at a time; test code.
-- The network that a NetHandler was given is the shell's: `has_pebo_net` stands for both pointers, and
-- INetHandler::init is left out. In Network, a message is never cut or joined with another on its way,
-- and no connection is made or lost while an announcement travels.
pub mod Prelude
pub mod Text
pub mod SortedMap
pub mod Types
pub mod TimeStamp
pub mod Store
pub mod Message
pub mod Endpoint
pub mod Wire
pub mod World
pub mod WriteRequest
pub mod Machine
pub mod NetClient
pub mod PeboNet
pub mod NetHandler
pub mod Shell
pub mod Library
pub mod Interfaces
pub mod Network
pub mod Node
pub mod Sample
pub mod Tests
