-- ===== src/Sample/Demo.antt =====
-- The demo program's `main` (src/sample/demoapp/demoapp.cpp), without what it prints.
use peerboot_cpp.Prelude.{List, [], ◌∷◌, true, if◌then◌else◌}
use peerboot_cpp.Text.{Str, codes}
use peerboot_cpp.Types.{ErrorCode, err_ok}
use peerboot_cpp.World.{Env, Act, notified}
use peerboot_cpp.Machine.{M, pure, ◌>>=◌, ◌>>◌, or_fault}
use peerboot_cpp.Library
use peerboot_cpp.Library.{is_error}
use peerboot_cpp.Node.{Event, run}
use peerboot_cpp.Sample.Args.{AppParams, defaults, process_args}
use peerboot_cpp.Sample.Peers.{Peers, register}

abbrev pub service : Str
service = codes "demo.peerboot.io"

-- Always one extra peer, also when none was given
unfoldable pub start_library : Env → AppParams → M ErrorCode
start_library env params =
    Library.init_ex env service params.end_point true (params.pb_extra_peer ∷ [])
      params.pb_listen_port

-- The event loop's callbacks while the program waits for a key
abbrev pub run_all : Env → List Event → M (Unit {0})
run_all env [] = pure tt
run_all env (e ∷ events) = run env e >> run_all env events

-- The error that is returned, as the exit code; the result of deinit is only printed.
unfoldable pub main : Env → List Str → List Event → M ErrorCode
unfolding start_library process_args
main env args waiting = do
  params ← or_fault (process_args defaults args)
  err ← start_library env params
  if is_error err then pure err else (run_all env waiting >> Library.deinit env >> pure err_ok)

-- The table after the calls of the client's callback that a trace has, in their order
unfoldable pub heard : Peers → List Act → Peers
unfolding register
heard peers [] = peers
heard peers (notified self peer ∷ acts) = heard (register peer peers) acts
heard peers (_ ∷ acts) = heard peers acts
