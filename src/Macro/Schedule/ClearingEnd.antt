-- ===== src/Macro/Schedule/ClearingEnd.antt =====
-- `clearThreads` comes to its end, what it leaves, and where it goes wrong.
use libmacro.Prelude.{
  Bool, false, ℕ, ◌+◌, ◌*◌, ◌^◌, ◌<◌, ◌≤◌, ◌≡◌, ◌≢◌, ◌∙◌, ◌⊎◌, inl, inr, ap, subst, refl,
  Bool-cases, [], ◌∷◌, true, ◌==◌, if◌then◌else◌, arith, All, length,
}
use libmacro.Types.{Interrupt, continue, disable, interrupt_all}
use libmacro.Macro.State.{Macro, Globals}
use libmacro.Macro.Threads.{dequeue}
use libmacro.Macro.Threads.Limits.{IsLimited}
use libmacro.Macro.Threads.Starting.{start_spawns}
use libmacro.Macro.Run.{up, at_least}
use libmacro.Macro.Pool.{with_threads}
use libmacro.Macro.Pool.Counts.{threads_bounded}
use libmacro.Macro.Schedule.{
  System, Move, Turn, turn, Call, Reach, here, called, initial, after_start, macro_set, with_macro,
  fresh, entered,
}
use libmacro.Macro.Schedule.Places.{total, is_consuming}
use libmacro.Macro.Schedule.Refinement.{pool_of, schedule_refines}
use libmacro.Macro.Schedule.Ending.{weight, progress}
use libmacro.Macro.Schedule.Settling.{all_gone}
use libmacro.Macro.Schedule.Clearing.{
  waiting_once, first_phase, Phase, looking, emptying, awaiting, retesting, testing_last, joining,
  finished, undecided, IsGone, Clears, Together, no_step, by_thread, by_caller,
}
use libmacro.Macro.Schedule.Cleared.{
  At, left, IsClearing, weightless-IsGone, IsGone-weightless, Together-IsClearing,
}

-- A thread can move, or the call can go on.
abbrev pub GoesOn : Interrupt → System → Phase → Type 0
GoesOn v t q = ((u : System) × Turn t u) ⊎ ((u : System) × (r : Phase) × Clears v t q u r)

pub ways_on :
    (v : Interrupt) (m : Macro) (q : Phase) (t : System)
    → IsClearing m q t
    → GoesOn v t q ⊎ (q ≡ undecided) ⊎ (q ≡ finished)
ways_on v m looking t i = elim (Bool-cases (t.shared.macro.thread_count == 0)) [
  | inl zero_now ↦ inl (inr (_, _, Clears.sees_none (ground arith)))
  | inr some_now ↦ inl (inr (_, _, Clears.sees_some (ground arith)))
]
ways_on v m emptying t i = inl (inr (_, _, Clears.empties))
ways_on v m awaiting t i = elim (progress t i.stopped) [
  | inl ended ↦ inl (inr (_, _, Clears.wakes ((all_gone t i.counts ended).0)))
  | inr moves ↦ inl (inl moves)
]
ways_on v m retesting t i = elim (Bool-cases (t.shared.macro.thread_count == 0)) [
  | inl zero_now ↦ inl (inr (_, _, Clears.leaves_loop (ground arith)))
  | inr some_now ↦ inl (inr (_, _, Clears.goes_round (ground arith)))
]
ways_on v m testing_last t i = elim (Bool-cases (t.shared.macro.thread_count == 0)) [
  | inl zero_now ↦ inl (inr (_, _, Clears.sees_none_again (ground arith)))
  | inr some_now ↦ inl (inr (_, _, Clears.sees_late (ground arith)))
]
ways_on v m waiting_once t i = elim (progress t i.stopped) [
  | inl ended ↦ inl (inr (_, _, Clears.wakes_once ((all_gone t i.counts ended).0)))
  | inr moves ↦ inl (inl moves)
]
ways_on v m joining t i = elim (progress t i.stopped) [
  | inl ended ↦
      inl (
        inr (_, _, Clears.joins (weightless-IsGone (length t.shared.macro.signals) t.places ended)))
  | inr moves ↦ inl (inl moves)
]
ways_on v m finished t i = inr (inr refl)
ways_on v m undecided t i = inr (inl refl)

finished_lem :
    (m : Macro) (t : System)
    → IsClearing m finished t
    → All IsGone t.places × (t.shared.macro ≡ record m { thread_count = 0; threads = 0 })
finished_lem m t i =
    let (gone_all, no_handles) = i.at_end in
    let ended = IsGone-weightless (length t.shared.macro.signals) t.places gone_all in
    let (none_left, _) = all_gone t i.counts ended in
    (
      gone_all,
      i.same
          ∙ ap (λ k. record m { thread_count = k; threads = t.shared.macro.threads }) none_left
          ∙ ap (λ k. record m { thread_count = 0; threads = k }) no_handles,
    )

first_At : (sticky : Bool) (t : System) → At (first_phase sticky) t
first_At true t = tt
first_At false t = tt

pub left-first_phase : (sticky : Bool) (t : System) → left (first_phase sticky) t ≤ 5
left-first_phase true t = omega arith
left-first_phase false t = omega arith

-- The call after its first `dequeue`
pub begun-IsClearing :
    (m : Macro) (g : Globals) (s : System) (v : Interrupt) (sticky : Bool)
    → m.thread_count ≡ 0
    → g.active ≤ g.thread_limit
    → g.thread_limit < 2 ^ 32
    → Reach (initial m g) s
    → at_least v interrupt_all ≡ true
    → total is_consuming s.places ≡ 0
    → IsClearing
        (dequeue v s.shared.macro)
        (first_phase sticky)
        (macro_set (dequeue v s.shared.macro) s)
unfolding dequeue
begun-IsClearing m g s v sticky idle few narrow r stops none_there =
    let begun : System = macro_set (dequeue v s.shared.macro) s in
    record {
      stopped = record { stopped = stops; none_consuming = none_there };
      empty = refl;
      counts =
          threads_bounded m g (pool_of begun) idle few narrow
            (schedule_refines m g begun (called r (Call.dequeues v)));
      same = refl;
      at_end = first_At sticky begun;
    }

-- In a system reached from a macro without threads, under a global limit below 2 ^ 32 with no more
-- slots taken than there are, in which no thread is about to end an INTERRUPT, once `clearThreads`
-- on another thread, with a sticky interrupt or without, has emptied the queue with INTERRUPT_ALL
-- or DISABLE, the call and the threads together make at most four times as many steps as the places
-- and signals weigh, and five; after any of them, in any order, a thread can move or the call can
-- go on, or the call has met a `threadStatus` without a value, or it has returned, all threads have
-- ended, and the macro is as the call left it with no thread counted and no handle.
pub clear_ends :
    (m : Macro) (g : Globals) (s t : System) (v : Interrupt) (sticky : Bool) (n : ℕ) (q : Phase)
    → m.thread_count ≡ 0
    → g.active ≤ g.thread_limit
    → g.thread_limit < 2 ^ 32
    → Reach (initial m g) s
    → at_least v interrupt_all ≡ true
    → total is_consuming s.places ≡ 0
    → Together v (macro_set (dequeue v s.shared.macro) s) (first_phase sticky) n t q
    → (n ≤ 4 * weight s + 5)
      × (GoesOn v t q
          ⊎ (q ≡ undecided)
          ⊎ ((q ≡ finished)
              × All IsGone t.places
              × (t.shared.macro
                  ≡ record (dequeue v s.shared.macro) { thread_count = 0; threads = 0 })))
unfolding dequeue
clear_ends m g s t v sticky n q idle few narrow r stops none_there steps =
    let first = begun-IsClearing m g s v sticky idle few narrow r stops none_there in
    let (i, few_steps) = Together-IsClearing v s.shared.macro stops steps first in
    (
      omega (arith, few_steps, left-first_phase sticky (macro_set (dequeue v s.shared.macro) s)),
      elim (ways_on v (dequeue v s.shared.macro) q t i) [
        | inl more ↦ inl more
        | inr (inl lost) ↦ inr (inl lost)
        | inr (inr over) ↦
            let base = dequeue v s.shared.macro in
            let last = subst (λ p. IsClearing base p t) over i in
            let (all, left_over) = finished_lem base t last in inr (inr (over, all, left_over))
      ],
    )

-- From a macro within its limits, in CONTINUE and without threads, where a global slot is free, a
-- system is reached in which no thread is about to end an INTERRUPT, and from which a sticky
-- `clearThreads` with DISABLE and the macro's one thread can take steps that bring the call to the
-- test of a `threadStatus` without a value.
pub clear_undecided :
    (m : Macro) (g : Globals)
    → IsLimited g.thread_limit m
    → m.interruptor ≡ continue
    → m.thread_count ≡ 0
    → g.active < g.thread_limit
    → (s : System) × (t : System) × (n : ℕ) × Reach (initial m g) s
      × (total is_consuming s.places ≡ 0)
      × Together disable (macro_set (dequeue disable s.shared.macro) s) looking n t undecided
unfolding dequeue
clear_undecided m g v going idle free =
    let s = after_start true (initial m g) in
    let spawned = start_spawns g m v (inl going, omega (arith, v.some_thread, idle)) free in
    let places : s.places ≡ fresh ∷ [] = ap (λ c. if c.spawned then fresh ∷ [] else []) spawned in
    let none_counted : s.shared.macro.thread_count ≡ 0 =
      ap (λ c. c.macro.thread_count) spawned ∙ idle in
    let begun : System = macro_set (dequeue disable s.shared.macro) s in
    let counted : System = record begun {
      shared =
          with_macro (with_threads (up begun.shared.macro.thread_count) begun.shared.macro)
            begun.shared;
      places = entered ∷ [];
    } in
    let late : counted.shared.macro.thread_count ≢ 0 = ground (arith, none_counted) in
    let entering : Turn begun counted = turn [] [] places Move.enter in
    let passed_over : Together disable begun looking 1 begun testing_last =
      by_caller no_step (Clears.sees_none none_counted) in
    (
      s,
      counted,
      3,
      called here (Call.starts true),
      ap (total is_consuming) places,
      by_caller (by_thread passed_over entering) (Clears.sees_late late),
    )
