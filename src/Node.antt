-- ===== src/Node.antt =====
-- A whole node, driven from outside: the calls of the library's public functions and the callbacks of
-- the event loop, in any order and with any arguments. Each is one step on the world of its process.
-- (In the program the event loop makes the callbacks in a thread of its own, and the public functions
-- are called in another.)
pub mod Linked
pub mod Safe
pub mod Reachable
pub mod Relay
pub mod Robust
pub mod Path
pub mod Joins
use peerboot_cpp.Prelude.{ℕ, ◌≡◌, Bool, false, List, [], Option, some}
use peerboot_cpp.Prelude.Int.{ℤ}
use peerboot_cpp.Text.{Str}
use peerboot_cpp.World.{World, Env}
use peerboot_cpp.Machine.{M, pure, ◌>>◌}
use peerboot_cpp.NetClient.Callbacks.{
  static_on_close, static_on_write, static_on_read, static_on_connect,
}
use peerboot_cpp.NetHandler.Callbacks.{static_on_new_connection}
use peerboot_cpp.Shell
use peerboot_cpp.Library

pub data Event : Type 0 where
  -- calls of initEx, deinit, and of the shell's broadcast_refresh and stop
  init_ex : Str → Str → Bool → List Str → ℤ → Event
  deinit refresh stop : Event
  -- callbacks of libuv, with the data pointers that they find
  closed : Option ℕ → Event
  written : Option (Option ℕ) → ℤ → Event
  received : Option ℕ → ℕ → ℤ → Option Str → Event
  connected : Option ℕ → ℕ → ℤ → Event
  new_connection : Bool → ℤ → Event

unfoldable pub run : Env → Event → M (Unit {0})
run env (init_ex service endpoint callback extra port) =
    Library.init_ex env service endpoint callback extra port >> pure tt
run env deinit = Library.deinit env >> pure tt
run env refresh = Shell.broadcast_refresh env >> pure tt
run env stop = Shell.stop env >> pure tt
run env (closed id) = static_on_close id
run env (written request status) = static_on_write env request status
run env (received id h nread base) = static_on_read env id h nread base
run env (connected id h status) = static_on_connect env id h status
run env (new_connection server status) = static_on_new_connection env server status

-- A process that has not called the library yet.
abbrev pub fresh_process : World
fresh_process = record {
  clients = [];
  net = record { peers_in = []; peers_out = []; store = []; has_notify_cb = false };
  shell = Shell.new_shell;
  has_instance = false;
  trace = [];
  next_handle = 0;
}

-- The worlds that a process reaches by events that do not fault.
pub data Reach (env : Env) : World → Type 0 where
  start : Reach env fresh_process
  later : {v w : World} (e : Event) → Reach env v → run env e v ≡ some (tt, w) → Reach env w
