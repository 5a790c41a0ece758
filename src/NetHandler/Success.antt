-- ===== src/NetHandler/Success.antt =====
-- Starting the handler when the port is free.
use peerboot_cpp.Prelude.{
  ℕ, zero, suc, ◌+◌, ◌<◌, ◌≡◌, refl, ap, sym, subst, ◌∙◌, true, some, List, arith,
}
use peerboot_cpp.Prelude.Int.{ℤ, pos, negsuc, is_zero, ◌+ℤ◌}
use peerboot_cpp.World.{World, Shell, Env, Act, not_started, running, net_handler}
use peerboot_cpp.PeboNet.Sends.{AllUsable}
use peerboot_cpp.PeboNet.Dial.{RawIdle, AllDialable, listen_started_lem}
use peerboot_cpp.NetHandler.{
  next_ports, started_on, do_listen, start_uv_loop, start_net, start_handler,
}
use peerboot_cpp.NetHandler.Listen.{
  Ports, HasPorts, is_free, attempted, after_attempts, do_listen_first,
}

-- The attempts leave the objects of the process alone.
attempts_keep :
    (ports : Ports) (port : ℤ) (rounds i : ℕ) (w : World)
    → ((after_attempts ports port rounds i w).shell ≡ w.shell)
      × ((after_attempts ports port rounds i w).net ≡ w.net)
      × ((after_attempts ports port rounds i w).clients ≡ w.clients)
attempts_keep ports port zero i w = (refl, refl, refl)
attempts_keep ports port (suc rounds) i w =
    let (s, n, c) = attempts_keep ports port rounds (i + 1) (attempted ports (port +ℤ pos i) w) in
    (ground (arith, s), ground (arith, n), ground (arith, c))

next_ports_positive : (tries : ℤ) → 0 < next_ports tries
next_ports_positive (pos n) = omega arith
next_ports_positive (negsuc n) = omega arith

-- The handler listens on the port, all peers are connected to, and the thread runs.
pub start_handler_lem :
    (env : Env) (ports : Ports) (n : ℕ) (tries : ℤ) (w : World)
    → HasPorts env ports
    → is_free ports (pos (suc n)) ≡ true
    → ((t : List Act) → is_zero (env.uv_async_init t) ≡ true)
    → RawIdle env
    → w.shell.has_pebo_net ≡ true
    → AllDialable w.clients w.net.peers_out
    → (w' : World) × (start_handler env (net_handler not_started) (pos (suc n)) tries w
        ≡ some (pos (suc n), w'))
      × (w'.shell ≡ record w.shell { handler = net_handler running })
      × AllUsable w'.clients w'.net.peers_out
unfolding start_handler start_net start_uv_loop started_on
start_handler_lem env ports n tries w has yes' async idle here h =
    let port : ℤ = pos (suc n) in
    let e : port +ℤ pos 0 ≡ port = ground arith in
    let u = after_attempts ports port (next_ports tries) 0 w in
    let (s, net, cs) = attempts_keep ports port (next_ports tries) 0 w in
    let listens : do_listen env port tries w ≡ started_on env port u =
      do_listen_first env ports port tries 0 w has (next_ports_positive tries)
        (ap (is_free ports) e ∙ yes') (λ j lt. absurd (omega arith))
      ∙ ap (λ p. started_on env p u) e in
    let (v, done, same, all) = listen_started_lem env port u idle (
      subst (λ c. AllDialable c u.net.peers_out) (sym cs)
        (subst (λ m. AllDialable w.clients m.peers_out) (sym net) h)) in
    (
      record v { shell = record v.shell { handler = net_handler running } },
      ground (arith, listens, ap (λ x. x.has_pebo_net) s ∙ here, done, async v.trace),
      ap {A = Shell} (λ x. record x { handler = net_handler running }) (same ∙ s),
      all,
    )
