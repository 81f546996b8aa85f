-- ===== src/Macro/Schedule/Destruction.antt =====
-- What the threads leave of a macro whose queue has been emptied and which has been stopped, as
-- `clearThreads` does before it waits for them.
use libmacro.Prelude.{ℕ, ◌^◌, ◌<◌, ◌≤◌, ◌≡◌, ◌∙◌, ◌⊎◌, inl, inr, ap, sym, subst, refl, true, arith}
use libmacro.Types.{Interrupt, interrupt_all}
use libmacro.Macro.State.{Macro, Globals}
use libmacro.Macro.Threads.{dequeue, dec_queued}
use libmacro.Macro.Run.{at_least}
use libmacro.Macro.Pool.{with_threads}
use libmacro.Macro.Schedule.{
  Place, Shared, System, Move, Turn, turn, Call, Reach, called, initial, macro_set,
}
use libmacro.Macro.Schedule.Places.{total, total_one, is_consuming}
use libmacro.Macro.Schedule.Ending.{IsStopped, Turns, no_turn, one_more, weight, Turns-weight}
use libmacro.Macro.Schedule.Settling.{threads_settle}

-- The macro is as before but for the count of its threads.
abbrev SameButCount : Macro → Macro → Type 0
SameButCount m n = n ≡ with_threads n.thread_count m

dec_queued-empty : (limit : ℕ) (m : Macro) → m.queued ≡ 0 → dec_queued limit m ≡ m
unfolding dec_queued
dec_queued-empty limit m h = ground arith

pub Move-SameButCount :
    {here there : Place} {s t : Shared}
    → Move s here t there
    → s.macro.queued ≡ 0
    → is_consuming here ≡ 0
    → SameButCount s.macro t.macro
Move-SameButCount Move.enter q l = refl
Move-SameButCount (Move.preamble_interrupted h) q l = refl
Move-SameButCount (Move.preamble_free h) q l = refl
Move-SameButCount (Move.no_signals h) q l = refl
Move-SameButCount (Move.some_signals h) q l = refl
Move-SameButCount (Move.pauses h) q l = refl
Move-SameButCount (Move.goes_on h) q l = refl
Move-SameButCount (Move.resumes h) q l = refl
Move-SameButCount (Move.loop_interrupted h) q l = refl
Move-SameButCount (Move.loop_free h) q l = refl
Move-SameButCount Move.consume q l = absurd (omega arith)
Move-SameButCount (Move.stops h) q l = refl
Move-SameButCount (Move.decides h) q l = refl
Move-SameButCount (Move.is_idle h) q l = refl
Move-SameButCount (Move.is_busy h) q l = refl
Move-SameButCount (Move.leaves h) q l = refl
Move-SameButCount (Move.stays h) q l = refl
Move-SameButCount {s = s} Move.takes q l =
    let e = dec_queued-empty s.globals.thread_limit s.macro q in
    subst (SameButCount s.macro) (sym e) refl
Move-SameButCount (Move.breaks h) q l = refl
Move-SameButCount (Move.skips h n) q l = refl
Move-SameButCount (Move.passes h) q l = refl
Move-SameButCount Move.sends q l = refl
Move-SameButCount Move.throws q l = refl
Move-SameButCount Move.all_sent q l = refl
Move-SameButCount Move.complete q l = refl
Move-SameButCount Move.release q l = refl

Turns-SameButCount :
    {s t : System} {n : ℕ}
    → Turns s n t
    → IsStopped s
    → s.shared.macro.queued ≡ 0
    → SameButCount s.shared.macro t.shared.macro
Turns-SameButCount no_turn v q = refl
Turns-SameButCount {s} (one_more {t = t} r (turn {here} {there} {shared} before after e m)) v q =
    let same = Turns-SameButCount r v q in
    let (v', _, _, _) = Turns-weight r v in
    let consumed = total_one is_consuming before after here in
    let all = ap (total is_consuming) e in
    let one =
      Move-SameButCount m (ap (λ x. x.queued) same ∙ q)
        (omega (arith, consumed, all, v'.none_consuming)) in
    one ∙ ap (with_threads shared.macro.thread_count) same

-- In a system reached from a macro without threads, under a global limit below 2 ^ 32 with no more
-- slots taken than there are, in which no thread is about to end an INTERRUPT, once the queue has
-- been emptied with INTERRUPT_ALL or DISABLE the threads make at most as many moves as their places
-- and signals weigh, change nothing of the macro but the count of its threads, and after any of
-- these moves a thread can move on, or the macro is as it was left with a count of 0.
pub dequeue_settles :
    (m : Macro) (g : Globals) (s t : System) (v : Interrupt) (n : ℕ)
    → m.thread_count ≡ 0
    → g.active ≤ g.thread_limit
    → g.thread_limit < 2 ^ 32
    → Reach (initial m g) s
    → at_least v interrupt_all ≡ true
    → total is_consuming s.places ≡ 0
    → Turns (macro_set (dequeue v s.shared.macro) s) n t
    → (n ≤ weight s)
      × (t.shared.macro ≡ with_threads t.shared.macro.thread_count (dequeue v s.shared.macro))
      × (((u : System) × Turn t u)
          ⊎ (t.shared.macro ≡ record (dequeue v s.shared.macro) { thread_count = 0 }))
unfolding dequeue
dequeue_settles m g s t v n idle few narrow r stops none turns =
    let begun : System = macro_set (dequeue v s.shared.macro) s in
    let stopped : IsStopped begun = record { stopped = stops; none_consuming = none } in
    let same = Turns-SameButCount turns stopped refl in
    let (bound, _, ends) =
      threads_settle m g begun t n idle few narrow (called r (Call.dequeues v)) stopped turns in
    (
      bound,
      same,
      elim ends [
        | inl moves ↦ inl moves
        | inr over ↦ inr (same ∙ ap (λ c. with_threads c (dequeue v s.shared.macro)) (over.0))
      ],
    )
