-- ===== src/Library/Linked.antt =====
-- The public functions, and the links of the node.
use peerboot_cpp.Prelude.{Bool, true, false, List, [], map}
use peerboot_cpp.Prelude.Int.{ℤ}
use peerboot_cpp.Text.{Str}
use peerboot_cpp.Types.{ErrorCode, err_ok, err_lib_not_inited, err_lib_already_inited}
use peerboot_cpp.Endpoint.{endpoint}
use peerboot_cpp.Store.WellFormed.{IsWellFormed-empty}
use peerboot_cpp.World.{Env}
use peerboot_cpp.Machine.{pure, ◌>>=◌, ◌>>◌}
use peerboot_cpp.Machine.Keeps.{done_Keeps}
use peerboot_cpp.Node.Safe.{
  Kept, Safe, bind-Safe, pure-Safe, if-Safe, rest_IsLinked, store_IsLinked,
}
use peerboot_cpp.Shell
use peerboot_cpp.Shell.{new_shell}
use peerboot_cpp.Shell.Linked.{init-Safe, start-Safe, deinit-Safe, new_net_IsLinked}
use peerboot_cpp.Library.{
  get_instance, put_instance, create_shell, is_error, discard, start_shell, init_ex_new, init_ex,
  deinit,
}

get_instance-Safe : Safe get_instance
get_instance-Safe w = done_Keeps Kept w w w.has_instance (λ l. l)

put_instance-Safe : (b : Bool) → Safe (put_instance b)
put_instance-Safe b w = done_Keeps Kept w _ tt (rest_IsLinked w.trace w.shell b)

create_shell-Safe : Safe create_shell
unfolding create_shell
create_shell-Safe w = done_Keeps Kept w _ tt λ l.
    store_IsLinked [] IsWellFormed-empty
      (new_net_IsLinked false (rest_IsLinked w.trace new_shell w.has_instance l))

discard-Safe : (env : Env) (err : ErrorCode) → Safe (discard env err)
unfolding discard
discard-Safe env err = bind-Safe (Shell.deinit env) _ (deinit-Safe env) (λ _. pure-Safe err)

start_shell-Safe : (env : Env) (service endpoint : Str) → Safe (start_shell env service endpoint)
unfolding start_shell
start_shell-Safe env service endpoint =
    bind-Safe (Shell.start env service endpoint) _ (start-Safe env service endpoint) λ err.
      if-Safe (is_error err) (discard env err) (put_instance true >> pure err_ok)
        (discard-Safe env err)
        (bind-Safe (put_instance true) _ (put_instance-Safe true) (λ _. pure-Safe err_ok))

init_ex_new-Safe :
    (env : Env) (service endpoint_in : Str) (callback : Bool) (extra : List Str) (port : ℤ)
    → Safe (init_ex_new env service endpoint_in callback extra port)
unfolding init_ex_new
init_ex_new-Safe env service endpoint_in callback extra port =
    bind-Safe create_shell _ create_shell-Safe λ _.
      bind-Safe (Shell.init env callback (map endpoint extra) port) _
        (init-Safe env callback (map endpoint extra) port)
        λ err.
          if-Safe (is_error err) (discard env err) (start_shell env service endpoint_in)
            (discard-Safe env err) (start_shell-Safe env service endpoint_in)

pub init_ex-Safe :
    (env : Env) (service endpoint_in : Str) (callback : Bool) (extra : List Str) (port : ℤ)
    → Safe (init_ex env service endpoint_in callback extra port)
unfolding init_ex
init_ex-Safe env service endpoint_in callback extra port =
    bind-Safe get_instance _ get_instance-Safe λ exists.
      if-Safe exists (pure err_lib_already_inited)
        (init_ex_new env service endpoint_in callback extra port) (pure-Safe err_lib_already_inited)
        (init_ex_new-Safe env service endpoint_in callback extra port)

delete_shell-Safe :
    (env : Env) → Safe (do put_instance false; err ← Shell.deinit env; Shell.deinit env; pure err)
delete_shell-Safe env = bind-Safe (put_instance false) _ (put_instance-Safe false) λ _.
    bind-Safe (Shell.deinit env) _ (deinit-Safe env)
      λ err. bind-Safe (Shell.deinit env) _ (deinit-Safe env) (λ _. pure-Safe err)

pub lib_deinit-Safe : (env : Env) → Safe (deinit env)
unfolding deinit
lib_deinit-Safe env = bind-Safe get_instance _ get_instance-Safe λ exists.
    if-Safe exists (do put_instance false; err ← Shell.deinit env; Shell.deinit env; pure err)
      (pure err_lib_not_inited) (delete_shell-Safe env) (pure-Safe err_lib_not_inited)
