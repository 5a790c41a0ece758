-- ===== src/Node/Reachable.antt =====
-- What holds in every world that a process reaches.
use peerboot_cpp.Prelude.{true, false, none, some}
use peerboot_cpp.Store.WellFormed.{IsWellFormed-empty}
use peerboot_cpp.World.{World, Env}
use peerboot_cpp.NetClient.Linked.{on_close-Safe, on_write-Safe, on_connect-Safe}
use peerboot_cpp.NetClient.Receive.Linked.{on_read-Safe}
use peerboot_cpp.NetClient.Callbacks.{
  static_on_close, static_on_write, static_on_read, static_on_connect,
}
use peerboot_cpp.NetHandler.Callbacks.{static_on_new_connection}
use peerboot_cpp.NetHandler.Linked.{on_new_connection-Safe}
use peerboot_cpp.Shell
use peerboot_cpp.Shell.Linked.{broadcast_refresh-Safe, stop-Safe}
use peerboot_cpp.Library
use peerboot_cpp.Library.Linked.{init_ex-Safe, lib_deinit-Safe}
use peerboot_cpp.Node.Linked.{IsLinked}
use peerboot_cpp.Node.Safe.{Safe, bind-Safe, pure-Safe}
use peerboot_cpp.Node.{
  Event, init_ex, deinit, refresh, stop, closed, written, received, connected, new_connection, run,
  fresh_process, Reach, start, later,
}

run-Safe : (env : Env) (e : Event) → Safe (run env e)
unfolding run static_on_close static_on_write static_on_read static_on_connect
    static_on_new_connection
run-Safe env (init_ex service endpoint callback extra port) =
    bind-Safe (Library.init_ex env service endpoint callback extra port) _
      (init_ex-Safe env service endpoint callback extra port) (λ _. pure-Safe tt)
run-Safe env deinit = bind-Safe (Library.deinit env) _ (lib_deinit-Safe env) (λ _. pure-Safe tt)
run-Safe env refresh =
    bind-Safe (Shell.broadcast_refresh env) _ (broadcast_refresh-Safe env) (λ _. pure-Safe tt)
run-Safe env stop = bind-Safe (Shell.stop env) _ (stop-Safe env) (λ _. pure-Safe tt)
run-Safe env (closed none) = pure-Safe tt
run-Safe env (closed (some id)) = on_close-Safe id
run-Safe env (written none status) = pure-Safe tt
run-Safe env (written (some none) status) = pure-Safe tt
run-Safe env (written (some (some id)) status) = on_write-Safe env id status
run-Safe env (received none h nread base) = pure-Safe tt
run-Safe env (received (some id) h nread base) = on_read-Safe env id h nread base
run-Safe env (connected none h status) = pure-Safe tt
run-Safe env (connected (some id) h status) = on_connect-Safe env id h status
run-Safe env (new_connection false status) = pure-Safe tt
run-Safe env (new_connection true status) = on_new_connection-Safe env status

fresh_process-IsLinked : IsLinked fresh_process
fresh_process-IsLinked = record {
  fresh = λ i h e. absurd (cc e);
  apart = λ i j h e f. absurd (cc e);
  outs = tt;
  ins = tt;
  filed = IsWellFormed-empty;
}

-- In every world that a process reaches, by any calls of the library and any callbacks of the event
-- loop, in any order: the handle of each connection was made by the program, and no two connections
-- share one; each entry of the outgoing peers stands for an outgoing connection with its address, and
-- each entry of the incoming peers for an incoming one; and the store is well-formed.
pub Reach-IsLinked : (env : Env) {w : World} → Reach env w → IsLinked w
Reach-IsLinked env start = fresh_process-IsLinked
Reach-IsLinked env (later {v} {w} e r done) = run-Safe env e v tt w done (Reach-IsLinked env r)
