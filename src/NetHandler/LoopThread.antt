-- ===== src/NetHandler/LoopThread.antt =====
-- The background thread ends, and leaves no loop behind.
use mathlib.Core.List.{append-nil}
use native.Mathlib.Numerals.{add-one}
use peerboot_cpp.Prelude.{
  ℕ, zero, suc, ◌+◌, ◌≤◌, ◌≡◌, refl, ap, sym, ◌∙◌, ◌⊎◌, true, List, [], ◌∷◌, ◌++◌, none, some,
  arith, length, length-append, Bool-cases, Option-cases, inl, inr,
}
use peerboot_cpp.Prelude.Int.{int_eq}
use peerboot_cpp.NetHandler.Loop.{
  LoopAct, loop_inited, loop_run, loop_closed, loop_deleted, handle_closing, handle_deleted, slept,
  Loops, LoopEnv, did, get_uv_loop, delete_uv_loop, on_walk, walk, minus_ebusy, close_uv_loop,
  run_loop, do_bg_thread,
}

-- The loops that were deleted, in order.
abbrev deleted : List LoopAct → List ℕ
deleted [] = []
deleted (loop_deleted id ∷ acts) = id ∷ deleted acts
deleted (_ ∷ acts) = deleted acts

-- The numbers below n
abbrev upto : ℕ → List ℕ
upto zero = []
upto (suc n) = upto n ++ n ∷ []

-- Every loop that was made, but the current one, was deleted, once each and in the order of their making.
abbrev IsTidy : Loops → Type 0
IsTidy loops = elim loops.current [
  | none ↦ deleted loops.acts ≡ upto loops.next
  | some id ↦ (loops.next ≡ id + 1) × (deleted loops.acts ≡ upto id)
]

deleted-append : (xs ys : List LoopAct) → deleted (xs ++ ys) ≡ deleted xs ++ deleted ys
deleted-append [] ys = refl
deleted-append (loop_deleted id ∷ xs) ys = ap (◌∷◌ id) (deleted-append xs ys)
deleted-append (loop_inited id ∷ xs) ys = deleted-append xs ys
deleted-append (loop_run id ∷ xs) ys = deleted-append xs ys
deleted-append (loop_closed id ∷ xs) ys = deleted-append xs ys
deleted-append (handle_closing id ∷ xs) ys = deleted-append xs ys
deleted-append (handle_deleted id ∷ xs) ys = deleted-append xs ys
deleted-append (slept ∷ xs) ys = deleted-append xs ys

-- Acts that follow and delete no loop.
record Later (l l' : Loops) : Type 0 where
  pub current : l'.current ≡ l.current
  pub next : l'.next ≡ l.next
  pub kept : deleted l'.acts ≡ deleted l.acts
  pub longer : length l.acts ≤ length l'.acts

Later-trans : (k l m : Loops) → Later k l → Later l m → Later k m
Later-trans k l m f g = record {
  current = g.current ∙ f.current;
  next = g.next ∙ f.next;
  kept = g.kept ∙ f.kept;
  longer = omega (arith, f.longer, g.longer);
}

did-Later : (a : LoopAct) (l : Loops) → deleted (a ∷ []) ≡ [] → Later l (did a l)
did-Later a l h = record {
  current = refl;
  next = refl;
  kept = deleted-append l.acts (a ∷ []) ∙ rw (h, append-nil) refl;
  longer = omega (arith, length-append l.acts (a ∷ []));
}

walk-Later : (handles : List ℕ) (l : Loops) → Later l (walk handles l)
unfolding walk on_walk
walk-Later [] l = record { current = refl; next = refl; kept = refl; longer = omega arith }
walk-Later (h ∷ handles) l =
    Later-trans l (on_walk h l) _ (did-Later (handle_closing h) l refl)
      (walk-Later handles (on_walk h l))

close_uv_loop-Later : (env : LoopEnv) (id : ℕ) (l : Loops) → Later l (close_uv_loop env id l)
unfolding close_uv_loop
close_uv_loop-Later env id l =
    let shut = did (loop_closed id) l in
    let f = did-Later (loop_closed id) l refl in
    elim (Bool-cases (int_eq (env.uv_loop_close l.acts id) minus_ebusy)) [
      | inl busy ↦ rw busy (Later-trans l shut _ f (walk-Later (env.walked shut.acts id) shut))
      | inr done ↦ rw done f
    ]

-- A loop that is run has been deleted, and none is left.
record Ran (l l' : Loops) : Type 0 where
  none_left : l'.current ≡ none
  all_deleted : deleted l'.acts ≡ upto l'.next
  longer : length l.acts + 1 ≤ length l'.acts

delete_uv_loop-Ran :
    (id : ℕ) (k l l' : Loops)
    → k.current ≡ some id
    → k.next ≡ id + 1
    → deleted k.acts ≡ upto id
    → length l.acts ≤ length k.acts
    → Later k l'
    → Ran l (delete_uv_loop l')
unfolding delete_uv_loop
delete_uv_loop-Ran id k l l' here next gone long f =
    let on : l'.current ≡ some id = f.current ∙ here in
    rw on (record {
      none_left = refl;
      all_deleted =
          deleted-append l'.acts (loop_deleted id ∷ [])
          ∙ ap (λ xs. xs ++ id ∷ []) (f.kept ∙ gone)
          ∙ ap upto (sym (add-one id) ∙ sym next ∙ sym f.next);
      longer = omega (arith, length-append l'.acts (loop_deleted id ∷ []), long, f.longer);
    })

-- After get_uv_loop there is a current loop, the last that was made.
record Got (l l' : Loops) (id : ℕ) : Type 0 where
  here : l'.current ≡ some id
  last : l'.next ≡ id + 1
  others : deleted l'.acts ≡ upto id
  longer : length l.acts ≤ length l'.acts

get_uv_loop-Got :
    (l : Loops) → IsTidy l → (id : ℕ) × (l' : Loops) × (get_uv_loop l ≡ (id, l')) × Got l l' id
unfolding get_uv_loop
get_uv_loop-Got l tidy = elim (Option-cases l.current) [
  | inl e ↦
      let made = did (loop_inited l.next) (record l { current = some l.next; next = l.next + 1 }) in
      (
        l.next,
        made,
        ground (arith, e),
        record {
          here = refl;
          last = refl;
          others =
              deleted-append l.acts (loop_inited l.next ∷ [])
              ∙ append-nil (deleted l.acts)
              ∙ (rw e at tidy);
          longer = omega (arith, length-append l.acts (loop_inited l.next ∷ []));
        },
      )
  | inr (id, e) ↦
      let (next, gone) = rw e at tidy in
      (
        id,
        l,
        ground (arith, e),
        record { here = e; last = next; others = gone; longer = omega arith },
      )
]

-- The event loop comes to an end whenever it is run.
abbrev Returns : LoopEnv → Type 0
Returns env = (acts : List LoopAct) (id : ℕ) → env.uv_run_returns acts id ≡ true

run_loop-Ran :
    (env : LoopEnv) (l : Loops)
    → Returns env
    → IsTidy l
    → (l' : Loops) × (run_loop env l ≡ some l') × Ran l l'
unfolding run_loop
run_loop-Ran env l returns tidy =
    let (id, got, e, g) = get_uv_loop-Got l tidy in
    let f = did-Later (loop_run id) got refl in
    (
      delete_uv_loop (close_uv_loop env id (did (loop_run id) got)),
      rw (e, returns got.acts id) refl,
      delete_uv_loop-Ran id got l _ g.here g.last g.others g.longer (
          Later-trans got (did (loop_run id) got) _ f
            (close_uv_loop-Later env id (did (loop_run id) got))),
    )

-- Nothing is left of the loops that were made.
abbrev AllDeleted : Loops → Type 0
AllDeleted l = (l.current ≡ none) × (deleted l.acts ≡ upto l.next)

slept-AllDeleted : (l l' : Loops) → Ran l l' → AllDeleted (did slept l')
slept-AllDeleted l l' r = (
  r.none_left,
  deleted-append l'.acts (slept ∷ []) ∙ append-nil (deleted l'.acts) ∙ r.all_deleted,
)

AllDeleted-IsTidy : (l : Loops) → AllDeleted l → IsTidy l
AllDeleted-IsTidy l (none_left, gone) = rw none_left gone

thread_ends_after :
    (env : LoopEnv) (k fuel : ℕ) (l : Loops)
    → Returns env
    → k ≤ length l.acts + fuel
    → ((acts : List LoopAct) → k ≤ length acts → env.stop_flag acts ≡ true)
    → IsTidy l
    → (l' : Loops) × (do_bg_thread env (suc fuel) l ≡ some l')
      × (AllDeleted l' ⊎ (env.stop_flag l.acts ≡ true) × (l' ≡ l))
unfolding do_bg_thread
thread_ends_after env k zero l returns enough stops tidy = (
  l,
  rw (stops l.acts (omega (arith, enough))) refl,
  inr (stops l.acts (omega (arith, enough)), refl),
)
thread_ends_after env k (suc fuel) l returns enough stops tidy =
    let (ran, runs, r) = run_loop-Ran env l returns tidy in
    let again = did slept ran in
    let fresh = slept-AllDeleted l ran r in
    elim (Bool-cases (env.stop_flag l.acts)) [
      | inl stopped ↦ (l, rw stopped refl, inr (stopped, refl))
      | inr goes ↦ elim (Bool-cases (env.stop_flag ran.acts)) [
        | inl stopped ↦ (ran, rw (goes, runs, stopped) refl, inl (r.none_left, r.all_deleted))
        | inr goes' ↦
            let (l', done, how) =
              thread_ends_after env k fuel again returns
                (omega (arith, enough, r.longer, length-append ran.acts (slept ∷ []))) stops
                (AllDeleted-IsTidy again fresh) in
            (
              l',
              rw (goes, runs, goes') done,
              elim how [ inl gone ↦ inl gone | inr (_, same) ↦ inl (rw same fresh) ],
            )
      ]
    ]

-- If the flag that stops the background thread reads true once k acts have been done, the thread's loop
-- ends, after at most k + 1 rounds, if each uv_run returns, whatever libuv answers otherwise; and then no loop object is left: each that
-- was made was deleted once, in the order of their making. The exception is a thread that finds the flag
-- set in its first test; it leaves everything as it was. (It starts with all loops but at most the
-- current one deleted.)
do_bg_thread_ends :
    (env : LoopEnv) (k : ℕ) (l : Loops)
    → Returns env
    → ((acts : List LoopAct) → k ≤ length acts → env.stop_flag acts ≡ true)
    → IsTidy l
    → (l' : Loops) × (do_bg_thread env (suc k) l ≡ some l')
      × (AllDeleted l' ⊎ (env.stop_flag l.acts ≡ true) × (l' ≡ l))
do_bg_thread_ends env k l returns stops tidy =
    thread_ends_after env k k l returns (omega arith) stops tidy
