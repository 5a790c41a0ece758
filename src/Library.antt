-- ===== src/Library.antt =====
-- The public functions of the library (src/peerboot/lib.cpp): one global shell, under one mutex.
pub mod Failure
pub mod Success
pub mod Linked
use peerboot_cpp.Prelude.{Bool, true, false, some, List, [], map, if◌then◌else◌}
use peerboot_cpp.Prelude.Int.{ℤ, pos}
use peerboot_cpp.Text.{Str}
use peerboot_cpp.Types.{ErrorCode, err_ok, err_lib_not_inited, err_lib_already_inited}
use peerboot_cpp.Endpoint.{endpoint}
use peerboot_cpp.Store
use peerboot_cpp.World.{World, Env}
use peerboot_cpp.Machine.{M, pure, ◌>>=◌, ◌>>◌, get_net, put_net, put_shell}
use peerboot_cpp.Shell
use peerboot_cpp.Shell.{new_shell, new_pebo_net}

abbrev pub get_instance : M Bool
get_instance w = some (w.has_instance, w)

abbrev pub put_instance : Bool → M (Unit {0})
put_instance b w = some (tt, record w { has_instance = b })

-- `new Shell()`, with its empty store
unfoldable pub create_shell : M (Unit {0})
create_shell = do
  put_shell new_shell
  net ← get_net
  put_net (record (new_pebo_net net) { store = Store.empty })

abbrev pub is_error : ErrorCode → Bool
is_error err_ok = false
is_error _ = true

-- `delete shell`, and the error is returned
unfoldable pub discard : Env → ErrorCode → M ErrorCode
discard env err = Shell.deinit env >> pure err

-- The second half of initEx: start the shell, and keep it.
unfoldable pub start_shell : Env → Str → Str → M ErrorCode
start_shell env service endpoint = do
  err ← Shell.start env service endpoint
  if is_error err then discard env err else (put_instance true >> pure err_ok)

-- initEx past its first test
unfoldable pub init_ex_new : Env → Str → Str → Bool → List Str → ℤ → M ErrorCode
init_ex_new env service endpoint_in callback extra_peers port = do
  create_shell
  err ← Shell.init env callback (map endpoint extra_peers) port
  if is_error err then discard env err else start_shell env service endpoint_in

-- initEx; the list holds the pbPeerCnt_in extra peers.
unfoldable pub init_ex : Env → Str → Str → Bool → List Str → ℤ → M ErrorCode
init_ex env service endpoint_in callback extra_peers port = do
  exists ← get_instance
  if exists
      then pure err_lib_already_inited
      else init_ex_new env service endpoint_in callback extra_peers port

unfoldable pub init : Env → Str → Str → Bool → M ErrorCode
unfolding init_ex
init env service endpoint_in callback = init_ex env service endpoint_in callback [] (pos 0)

-- deinit; deleting the shell calls its destructor, which finds it deinitialised.
unfoldable pub deinit : Env → M ErrorCode
unfolding Shell.deinit
deinit env = do
  exists ← get_instance
  if exists
      then (do put_instance false; err ← Shell.deinit env; Shell.deinit env; pure err)
      else pure err_lib_not_inited
