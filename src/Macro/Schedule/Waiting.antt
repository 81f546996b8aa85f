-- ===== src/Macro/Schedule/Waiting.antt =====
-- When a wait for the threads of a macro is over.
use libmacro.Prelude.{
  ◌^◌, ◌<◌, ◌≤◌, ◌≡◌, ◌↔◌, ap, inl, inr, List, ◌∷◌, ◌++◌, Bool, true, ◌==◌, arith,
}
use libmacro.Macro.State.{Macro, Globals}
use libmacro.Macro.Pool.Counts.{threads_bounded}
use libmacro.Macro.Schedule.{Shared, System, Place, Reach, initial}
use libmacro.Macro.Schedule.Places.{total, total_one, total-split, inside_at}
use libmacro.Macro.Schedule.Refinement.{pool_of, schedule_refines}

-- What `waitThreadsChanged` waits for
abbrev pub wait_over : Shared → Bool
wait_over s = s.macro.thread_count == 0

-- No thread stands between `runPreamble` and `onRunComplete`.
abbrev pub NoneInside : System → Type 0
NoneInside s =
    (before after : List Place) (p : Place) → s.places ≡ before ++ p ∷ after → inside_at p ≡ 0

-- In a system reached from a macro without threads, under a global limit below 2 ^ 32 with no more
-- slots taken than there are, the wait for the macro's threads is over exactly if no thread stands
-- between `runPreamble` and `onRunComplete`.
pub wait_over_iff :
    (m : Macro) (g : Globals) (s : System)
    → m.thread_count ≡ 0
    → g.active ≤ g.thread_limit
    → g.thread_limit < 2 ^ 32
    → Reach (initial m g) s
    → (wait_over s.shared ≡ true) ↔ NoneInside s
wait_over_iff m g s idle few narrow r =
    let v = threads_bounded m g (pool_of s) idle few narrow (schedule_refines m g s r) in
    (
      λ over before after p e.
          let all = ap (total inside_at) e in
          let zero_now : s.shared.macro.thread_count ≡ 0 = ground arith in
          omega (arith, v.counted, zero_now, all, total_one inside_at before after p),
      λ none_there. elim (total-split inside_at s.places) [
        | inl nobody ↦ let c = v.counted in ground arith
        | inr (before, p, after, e, somebody) ↦ absurd (somebody (none_there before after p e))
      ],
    )
