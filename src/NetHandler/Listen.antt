-- ===== src/NetHandler/Listen.antt =====
-- Which port the handler listens on.
use peerboot_cpp.Prelude.{
  ℕ, zero, suc, ◌+◌, ◌<◌, ◌≡◌, refl, ap, sym, ◌∙◌, Bool, true, false, Option, none, some, List, [],
  ◌∷◌, ◌++◌, arith, if◌then◌else◌, Bool-cases, inl, inr,
}
use native.Mathlib.Nat.{zero-add}
use peerboot_cpp.Prelude.Int.{ℤ, pos, negsuc, is_zero, ◌+ℤ◌}
use peerboot_cpp.World.{World, Env, Act, bound, listened}
use peerboot_cpp.Machine.{M, pure}
use peerboot_cpp.NetHandler.{do_bind_and_listen, listen_from, started_on, do_listen, next_ports}

-- The operating system's ports: which of them can be bound, and which of the bound ones can be
-- listened on. A port that another process listens on may be bound all the same, and be refused later.
pub record Ports : Type 0 where
  pub binds : ℤ → Bool
  pub listens : ℤ → Bool

abbrev pub is_free : Ports → ℤ → Bool
is_free ports p = if ports.binds p then ports.listens p else false

-- The outside has these ports, and that does not change.
pub record HasPorts (env : Env) (ports : Ports) : Type 0 where
  pub bind : (t : List Act) (h : ℕ) (p : ℤ) → is_zero (env.uv_tcp_bind t h p) ≡ ports.binds p
  pub listen : (t : List Act) (h : ℕ) (p : ℤ) → is_zero (env.uv_listen t h p) ≡ ports.listens p

-- The world after an attempt.
abbrev pub attempted : Ports → ℤ → World → World
attempted ports p w = record w {
  trace =
      if ports.binds p
      then (w.trace ++ bound w.next_handle p ∷ []) ++ listened w.next_handle p ∷ []
      else w.trace ++ bound w.next_handle p ∷ [];
  next_handle = w.next_handle + 1;
}

-- The first free port among `rounds` ports from `port` + `i` on.
abbrev pub first_free : Ports → ℤ → ℕ → ℕ → Option ℤ
first_free ports port zero i = none
first_free ports port (suc rounds) i =
    let rest = first_free ports port rounds (i + 1) in
    if is_free ports (port +ℤ pos i) then some (port +ℤ pos i) else rest

-- The world after the attempts up to that port.
abbrev pub after_attempts : Ports → ℤ → ℕ → ℕ → World → World
after_attempts ports port zero i w = w
after_attempts ports port (suc rounds) i w =
    let p = port +ℤ pos i in
    let rest = after_attempts ports port rounds (i + 1) (attempted ports p w) in
    if is_free ports p then attempted ports p w else rest

abbrev pub listening : Env → Option ℤ → M ℤ
listening env none = pure (negsuc 0)
listening env (some p) = started_on env p

attempt :
    (env : Env) (ports : Ports) (p : ℤ) (w : World)
    → HasPorts env ports
    → (res : ℤ) × (do_bind_and_listen env p w ≡ some (res, attempted ports p w))
      × (is_zero res ≡ is_free ports p)
unfolding do_bind_and_listen
attempt env ports p w o = elim (Bool-cases (ports.binds p)) [
  | inl yes' ↦ (
    env.uv_listen (w.trace ++ bound w.next_handle p ∷ []) w.next_handle p,
    ground (arith, yes', o.bind w.trace w.next_handle p),
    o.listen _ _ p ∙ rw yes',
  )
  | inr no' ↦ (
    env.uv_tcp_bind w.trace w.next_handle p,
    ground (arith, no', o.bind w.trace w.next_handle p),
    o.bind w.trace w.next_handle p ∙ rw no',
  )
]

pub listen_from_lem :
    (env : Env) (ports : Ports) (port : ℤ) (rounds i : ℕ) (w : World)
    → HasPorts env ports
    → listen_from env port rounds i w
      ≡ listening env (first_free ports port rounds i) (after_attempts ports port rounds i w)
unfolding listen_from
listen_from_lem env ports port zero i w o = refl
listen_from_lem env ports port (suc rounds) i w o =
    let p = port +ℤ pos i in
    let (res, done, same) = attempt env ports p w o in
    let later = listen_from_lem env ports port rounds (i + 1) (attempted ports p w) o in
    elim (Bool-cases (is_free ports p)) [
      | inl open' ↦ rw (done, same, open')
      | inr taken ↦ rw (done, same, taken) later
    ]

first_free-some :
    (ports : Ports) (port : ℤ) (rounds i k : ℕ)
    → k < rounds
    → is_free ports (port +ℤ pos (i + k)) ≡ true
    → ((j : ℕ) → j < k → is_free ports (port +ℤ pos (i + j)) ≡ false)
    → first_free ports port rounds i ≡ some (port +ℤ pos (i + k))
first_free-some ports port zero i k h f t = absurd (omega arith)
first_free-some ports port (suc rounds) i zero h f t =
    let e : i + 0 ≡ i = omega arith in rw (rw e at f) (ap (λ n. some (port +ℤ pos n)) (sym e))
first_free-some ports port (suc rounds) i (suc k) h f t =
    let e : i + suc k ≡ (i + 1) + k = omega arith in
    let e₀ : i + 0 ≡ i = omega arith in
    rw (rw e₀ at (t 0 (omega arith))) (
      first_free-some ports port rounds (i + 1) k (omega arith) (rw e at f)
        (λ j lt. rw (shift j) (t (suc j) (omega arith)))
      ∙ ap (λ n. some (port +ℤ pos n)) (sym e))
  where
    shift : (j : ℕ) → (i + 1) + j ≡ i + suc j
    shift j = omega arith

pub first_free-none :
    (ports : Ports) (port : ℤ) (rounds i : ℕ)
    → ((j : ℕ) → j < rounds → is_free ports (port +ℤ pos (i + j)) ≡ false)
    → first_free ports port rounds i ≡ none
first_free-none ports port zero i t = refl
first_free-none ports port (suc rounds) i t =
    let e₀ : i + 0 ≡ i = omega arith in
    rw (rw e₀ at (t 0 (omega arith)))
      (first_free-none ports port rounds (i + 1) (λ j lt. rw (shift j) (t (suc j) (omega arith))))
  where
    shift : (j : ℕ) → (i + 1) + j ≡ i + suc j
    shift j = omega arith

-- If the k-th port from the given one on is free, those before it are not, and k is below the number
-- of tries, cut to between 1 and 10, then the handler listens on it: the call goes on with that port
-- as the network's, after one attempt at each port up to it and none behind it. A port is free if it
-- can be bound and then listened on; one that is not may be refused by either call. (Which ports can be
-- bound, and which listened on, does not change.)
pub do_listen_first :
    (env : Env) (ports : Ports) (port tries : ℤ) (k : ℕ) (w : World)
    → HasPorts env ports
    → k < next_ports tries
    → is_free ports (port +ℤ pos k) ≡ true
    → ((j : ℕ) → j < k → is_free ports (port +ℤ pos j) ≡ false)
    → do_listen env port tries w
      ≡ started_on env (port +ℤ pos k) (after_attempts ports port (next_ports tries) 0 w)
unfolding do_listen
do_listen_first env ports port tries k w o h f t =
    listen_from_lem env ports port (next_ports tries) 0 w o
    ∙ rw
        (first_free-some ports port (next_ports tries) 0 k h (rw (← zero-add k) at f)
          (λ j lt. rw (zero-add j) (t j lt)))
        (rw (zero-add k))

shell-after_attempts :
    (ports : Ports) (port : ℤ) (rounds i : ℕ) (w : World)
    → (after_attempts ports port rounds i w).shell ≡ w.shell
shell-after_attempts ports port zero i w = refl
shell-after_attempts ports port (suc rounds) i w =
    ground
      (arith, shell-after_attempts ports port rounds (i + 1) (attempted ports (port +ℤ pos i) w))

-- If each of the ports that are tried is refused, when it is bound or when it is listened on, the
-- result is -1, after one attempt at each, and the shell is as before. (Which ports can be bound, and
-- which listened on, does not change.)
pub do_listen_none :
    (env : Env) (ports : Ports) (port tries : ℤ) (w : World)
    → HasPorts env ports
    → ((j : ℕ) → j < next_ports tries → is_free ports (port +ℤ pos j) ≡ false)
    → (do_listen env port tries w
        ≡ some (negsuc 0, after_attempts ports port (next_ports tries) 0 w))
      × ((after_attempts ports port (next_ports tries) 0 w).shell ≡ w.shell)
unfolding do_listen
do_listen_none env ports port tries w o t = (
  listen_from_lem env ports port (next_ports tries) 0 w o
      ∙ rw (first_free-none ports port (next_ports tries) 0 (λ j lt. rw (zero-add j) (t j lt))),
  shell-after_attempts ports port (next_ports tries) 0 w,
)
