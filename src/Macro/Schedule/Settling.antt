-- ===== src/Macro/Schedule/Settling.antt =====
-- What is left of a stopped macro's threads when none of them can move.
use libmacro.Prelude.{ℕ, ◌^◌, ◌<◌, ◌≤◌, ◌≡◌, ◌∙◌, ◌⊎◌, inl, inr, refl, arith, length}
use libmacro.Macro.State.{Macro, Globals}
use libmacro.Macro.Pool.Counts.{IsCounted, threads_bounded}
use libmacro.Macro.Schedule.{
  Place, System, Turn, Reach, turned, initial, fresh, entered, ready, head, consuming, testing,
  deciding, lingering, taking, delivering, pausing, waiting, completing, leaving, gone, sending,
}
use libmacro.Macro.Schedule.Places.{rank, made_at, inside_at, leaving_at}
use libmacro.Macro.Schedule.Refinement.{pool_of, schedule_refines}
use libmacro.Macro.Schedule.Ending.{
  IsStopped, sendings, Turns, no_turn, one_more, weight, Turns-weight, progress, weightless,
}

pub Turns-Reach : {o s t : System} {n : ℕ} → Reach o s → Turns s n t → Reach o t
Turns-Reach r no_turn = r
Turns-Reach r (one_more h k) = turned (Turns-Reach r h) k

-- A thread that has no moves left is neither made, nor inside, nor leaving.
no_place :
    (k : ℕ) (p : Place) → rank k p ≡ 0 → (made_at p ≡ 0) × (inside_at p ≡ 0) × (leaving_at p ≡ 0)
no_place k fresh h = absurd (omega arith)
no_place k entered h = absurd (omega arith)
no_place k ready h = absurd (omega arith)
no_place k head h = absurd (omega arith)
no_place k consuming h = absurd (omega arith)
no_place k testing h = absurd (omega arith)
no_place k deciding h = absurd (omega arith)
no_place k pausing h = absurd (omega arith)
no_place k waiting h = absurd (omega arith)
no_place k completing h = absurd (omega arith)
no_place k leaving h = absurd (omega arith)
no_place k gone h = (refl, refl, refl)
no_place k (sending ss) h = absurd (omega arith)
no_place k lingering h = absurd (omega arith)
no_place k taking h = absurd (omega arith)
no_place k (delivering a ss) h = absurd (omega arith)

pub all_gone :
    (s : System)
    → IsCounted (pool_of s)
    → weight s ≡ 0
    → (s.shared.macro.thread_count ≡ 0) × (s.shared.globals.active ≡ s.others)
all_gone s v z =
    let k = length s.shared.macro.signals in
    let made = weightless k made_at s.places (λ p h. (no_place k p h).0) z in
    let inside = weightless k inside_at s.places (λ p h. (no_place k p h).1) z in
    let leaves = weightless k leaving_at s.places (λ p h. (no_place k p h).2) z in
    (v.counted ∙ inside, omega (arith, v.slots, made, inside, leaves))

-- In a system reached from a macro without threads, under a global limit below 2 ^ 32 with no more
-- slots taken than there are, in which the macro is disabled or in INTERRUPT_ALL and no thread is
-- about to end an INTERRUPT, the threads make at most as many moves as their places and signals
-- weigh, in any order, and what they send are only the signals that they were about to send: those
-- together with the signals sent stay the same in number; after any number of their moves a thread
-- can move on, or the macro counts no thread and the global slots in use are those of other macros.
pub threads_settle :
    (m : Macro) (g : Globals) (s t : System) (n : ℕ)
    → m.thread_count ≡ 0
    → g.active ≤ g.thread_limit
    → g.thread_limit < 2 ^ 32
    → Reach (initial m g) s
    → IsStopped s
    → Turns s n t
    → (n ≤ weight s)
      × (sendings t ≡ sendings s)
      × (((u : System) × Turn t u)
          ⊎ ((t.shared.macro.thread_count ≡ 0) × (t.shared.globals.active ≡ s.others)))
threads_settle m g s t n idle few narrow r v turns =
    let (stopped, bound, same, quiet) = Turns-weight turns v in
    let counts =
      threads_bounded m g (pool_of t) idle few narrow
        (schedule_refines m g t (Turns-Reach r turns)) in
    (
      omega (arith, bound),
      quiet,
      elim (progress t stopped) [
        | inr moves ↦ inl moves
        | inl ended ↦ let (none, others) = all_gone t counts ended in inr (none, others ∙ same)
      ],
    )
