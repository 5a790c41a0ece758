-- ===== src/Tests/ShellExamples.antt =====
-- The network handler, the shell and the library: the properties at a concrete input.
use peerboot_cpp.Prelude.{
  ◌≡◌, refl, true, false, none, some, [], arith, ℕ, zero, suc, ◌<◌, if◌then◌else◌,
}
use peerboot_cpp.Prelude.Int.{pos, negsuc, int_eq, ◌+ℤ◌}
use peerboot_cpp.Text.{codes}
use peerboot_cpp.Types.{err_ok, err_network_listen}
use peerboot_cpp.World.{World, Env, not_started, net_handler}
use peerboot_cpp.NetHandler.{do_listen, started_on}
use peerboot_cpp.NetHandler.Listen.{
  Ports, HasPorts, is_free, after_attempts, do_listen_first, do_listen_none,
}
use peerboot_cpp.Shell.{new_shell}
use peerboot_cpp.Shell
use peerboot_cpp.Prelude.{◌||◌}
use peerboot_cpp.Text.{str_eq}
use peerboot_cpp.TimeStamp.{now}
use peerboot_cpp.SortedMap.{find}
use peerboot_cpp.Store.{find_peer}
use peerboot_cpp.Store.Lookup.{updated, reported}
use peerboot_cpp.Shell.Announce.{announcement, question, starting, started, TellsAll, start_lem}
use peerboot_cpp.PeboNet.{broadcast, query_remote}
use peerboot_cpp.Shell.Stop.{stopped, stop_lem}
use peerboot_cpp.Shell.ListenFailure.{init_listen_failure}
use peerboot_cpp.Library
use peerboot_cpp.Library.Failure.{init_ex_listen_failure}
use peerboot_cpp.Prelude.{map, ◌∷◌, ◌++◌}
use peerboot_cpp.Types.{err_lib_already_inited}
use peerboot_cpp.World.{running, closed_handle}
use peerboot_cpp.Node.{fresh_process}
use peerboot_cpp.Shell.Success.{Allows}
use peerboot_cpp.Library.Success.{init_ex_success}
use peerboot_cpp.Tests.Samples.{calm, broken, crowded, node, no_node}

-- Of the ports from 5000 on, 5000 can be bound and not listened on, 5001 can be bound and listened on,
-- and the others cannot be bound.
abbrev few_ports : Ports
few_ports = record {
  binds = λ p. int_eq p (pos 5000) || int_eq p (pos 5001);
  listens = λ p. int_eq p (pos 5001);
}

abbrev narrow : Env
narrow = record calm {
  uv_tcp_bind = λ _ _ p. if few_ports.binds p then pos 0 else negsuc 97;
  uv_listen = λ _ _ p. if few_ports.listens p then pos 0 else negsuc 97;
}

narrow-HasPorts : HasPorts narrow few_ports
narrow-HasPorts = record { bind = λ t h p. ground arith; listen = λ t h p. ground arith }

-- The port 5000 is not free.
before_5001 : (j : ℕ) → j < 1 → is_free few_ports (pos 5000 +ℤ pos j) ≡ false
before_5001 zero lt = refl
before_5001 (suc j) lt = absurd (omega arith)

do_listen_first_example :
    do_listen narrow (pos 5000) (pos 3) node
    ≡ started_on narrow (pos 5001) (after_attempts few_ports (pos 5000) 3 0 node)
do_listen_first_example =
    do_listen_first narrow few_ports (pos 5000) (pos 3) 1 node narrow-HasPorts (omega arith) refl
      before_5001

-- As in `crowded`
abbrev taken_ports : Ports
taken_ports = record { binds = λ _. true; listens = λ _. false }

crowded-HasPorts : HasPorts crowded taken_ports
crowded-HasPorts = record { bind = λ t h p. refl; listen = λ t h p. refl }

do_listen_none_example :
    (do_listen crowded (pos 5000) (pos 3) node
      ≡ some (negsuc 0, after_attempts taken_ports (pos 5000) 3 0 node))
    × ((after_attempts taken_ports (pos 5000) 3 0 node).shell ≡ node.shell)
do_listen_none_example =
    do_listen_none crowded taken_ports (pos 5000) (pos 3) node crowded-HasPorts (λ j lt. refl)

init_listen_failure_example :
    (w' : World) × (Shell.init crowded true [] (pos 5000) (record node { shell = new_shell })
      ≡ some (err_network_listen, w'))
    × (w'.shell.inited ≡ true)
    × (w'.shell.handler ≡ net_handler not_started)
init_listen_failure_example =
    init_listen_failure crowded taken_ports true [] (pos 5000) (record node { shell = new_shell })
      crowded-HasPorts (λ j lt. refl) refl

init_ex_listen_failure_example :
    Library.init_ex crowded (codes "s") (codes "me") true [] (pos 5000) no_node ≡ none
init_ex_listen_failure_example =
    init_ex_listen_failure crowded taken_ports (codes "s") (codes "me") true [] (pos 5000) no_node
      refl crowded-HasPorts (λ j lt. refl)

-- The write to the neighbour fails, which closes the connection; the question is not sent to it.
start_lem_example :
    (v w' : World) × (Shell.start broken (codes "s") (codes "me") node ≡ some (err_ok, w'))
    × (broadcast broken
          (starting broken (codes "s") (codes "me") node)
          (started broken (codes "s") (codes "me") node)
        ≡ some (err_ok, v))
    × TellsAll
        (started broken (codes "s") (codes "me") node)
        v
        (announcement (starting broken (codes "s") (codes "me") node))
    × (query_remote broken (codes "s") v ≡ some (err_ok, w'))
    × TellsAll v w' (question (codes "s"))
    × (w'.shell ≡ record node.shell { peer = starting broken (codes "s") (codes "me") node })
    × (find_peer w'.net.store (codes "s") (codes "me")
        ≡ some (updated 100 (reported (codes "s") (codes "me") false 100) none))
unfolding str_eq now find_peer find
start_lem_example = start_lem broken (codes "s") (codes "me") node refl (refl, tt)

stop_lem_example :
    (v : World) × (broadcast broken (record node.shell.peer { is_removed = true }) node
      ≡ some (err_ok, v))
    × TellsAll node v (announcement (record node.shell.peer { is_removed = true }))
    × (Shell.stop broken node ≡ some (err_ok, stopped broken v))
    × (Shell.deinit broken (stopped broken v) ≡ none)
unfolding str_eq
stop_lem_example = stop_lem broken node refl refl refl (λ t. refl) (refl, tt)

-- No host name is an address, and no write succeeds.
abbrev offline : Env
offline = record broken { uv_ip4_addr = λ _ _. negsuc 21 }

abbrev free_ports : Ports
free_ports = record { binds = λ _. true; listens = λ _. true }

offline-Allows : Allows offline free_ports 0
offline-Allows = record {
  has = record { bind = λ t h p. refl; listen = λ t h p. refl };
  port_free = refl;
  async = λ t. refl;
  woken = λ t. refl;
  idle = λ t. refl;
}

init_ex_success_example :
    (w' : World) × (Library.init_ex offline
        (codes "s")
        (codes "me")
        true
        (codes "h:1" ∷ [])
        (pos 0)
        fresh_process
      ≡ some (err_ok, w'))
    × (w'.shell.handler ≡ net_handler running)
    × (Library.init_ex offline (codes "s") (codes "me") true (codes "h:1" ∷ []) (pos 0) w'
        ≡ some (err_lib_already_inited, w'))
    × ((w'' : World) × (Library.deinit offline w' ≡ some (err_ok, w''))
        × (w''.trace ≡ w'.trace ++ map closed_handle (1 ∷ 2 ∷ []))
        × (w''.has_instance ≡ false))
init_ex_success_example =
    init_ex_success offline free_ports (codes "s") (codes "me") true (codes "h:1" ∷ []) 0
      fresh_process offline-Allows refl
