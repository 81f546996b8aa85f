-- ===== src/Tests/Resetting.antt =====
-- Examples of what every interleaving keeps, and of an INTERRUPT_ALL.
use libmacro.Prelude.{
  ℕ, ◌+◌, ◌*◌, ◌<◌, ◌≤◌, ◌≡◌, ◌≢◌, ◌⊎◌, refl, List, [], ◌∷◌, ◌++◌, true, false, arith, All,
}
use libmacro.Types.{continue, interrupt_all, disable}
use libmacro.Macro.State.{Macro, new_globals}
use libmacro.Macro.Threads.{start, dequeue}
use libmacro.Macro.Threads.Limits.{IsLimited}
use libmacro.Macro.Control.{interrupt_locked}
use libmacro.Macro.Schedule.{
  System, Place, turn, Move, Call, Reach, here, turned, called, initial, macro_set, after_start,
  fresh, entered, sending,
}
use libmacro.Macro.Schedule.Runs.{at_rest, begins, will_look}
use libmacro.Macro.Schedule.RunsKept.{no_run_lost}
use libmacro.Macro.Schedule.Places.{total, made_at}
use libmacro.Macro.Schedule.Ending.{weight, Turns}
use libmacro.Macro.Schedule.Invariant.{IsSendable, limits_kept}
use libmacro.Macro.Setting.{Setting}
use libmacro.Macro.Setting.Bounds.{IsBounded}
use libmacro.Macro.Schedule.Overtaken.{interrupt_all_lost}
use libmacro.Macro.Schedule.Resetting.{
  noting, stopping, asking, clearing, over, Resets, ResetSteps, no_step, by_reset,
}
use libmacro.Macro.Schedule.ResettingEnd.{ResetGoesOn, interrupt_all_ends, reset_ends}
use libmacro.Macro.Run.{up}
use libmacro.Macro.Pool.{with_threads}
use libmacro.Tests.Data.{ready, ready-IsLimited}

-- A thread has been made and counted.
abbrev begun : System
begun = after_start true (initial ready new_globals)

abbrev counted : System
counted = record begun {
  shared = record begun.shared {
    macro = with_threads (up begun.shared.macro.thread_count) begun.shared.macro;
  };
  places = entered ∷ [];
}

counted-Reach : Reach (initial ready new_globals) counted
unfolding start
counted-Reach = turned (called here (Call.starts true)) (turn [] [] refl Move.enter)

-- The first half of a `setThreadMax`
abbrev widened : System
widened = macro_set (record counted.shared.macro { thread_max = 9 }) counted

abbrev IsBelowTen : ℕ → Type 0
IsBelowTen a = a < 10

limits_kept_example :
    IsBounded 0x10 widened.shared.macro
    × All IsBelowTen ready.signals
    × All (IsSendable IsBelowTen) []
unfolding start
limits_kept_example =
    limits_kept IsBelowTen ready new_globals widened
      (called (turned (called here (Call.starts true)) (turn [] [] refl Move.enter))
        (Call.sets (Setting.sets_thread_max 9 refl)))
      (record { some_thread = omega arith; few_threads = omega arith; few_runs = omega arith })
      (omega arith, (omega arith, tt)) (tt, tt)

-- The macro has been set to INTERRUPT_ALL, and the reset thread has read it.
abbrev pressed : System
pressed = macro_set (interrupt_locked interrupt_all counted.shared.macro).1 counted

pressed-noted : ResetSteps pressed noting 1 pressed (stopping interrupt_all)
unfolding interrupt_locked start
pressed-noted = by_reset no_step Resets.notes

interrupt_all_ends_example :
    ((interrupt_locked interrupt_all counted.shared.macro).0 ≡ true)
    × (1 ≤ 4 * weight counted + 11)
    × (ResetGoesOn (stopping interrupt_all) pressed
        ⊎ ((stopping interrupt_all ≡ over)
            × (pressed.shared.macro ≡ record (counted.shared.macro) {
              queued = 0;
              interruptor = continue;
              thread_count = pressed.shared.macro.thread_count;
              threads = pressed.shared.macro.threads;
            })
            × ((total made_at counted.places ≢ 0) ⊎ (pressed.shared.macro.thread_count ≡ 0))))
unfolding start
interrupt_all_ends_example =
    interrupt_all_ends ready new_globals counted pressed 1 (stopping interrupt_all) refl
      (omega arith) (omega arith) counted-Reach refl (omega arith) pressed-noted

-- A sticky macro
abbrev staying : Macro
staying = record ready { sticky = true }

staying-IsLimited : IsLimited 0x10 staying
staying-IsLimited = record {
  some_thread = ready-IsLimited.some_thread;
  few_threads = ready-IsLimited.few_threads;
  few_runs = ready-IsLimited.few_runs;
}

interrupt_all_lost_example :
    (s : System) × Reach (initial staying new_globals) s
    × (s.places ≡ fresh ∷ [])
    × ((interrupt_locked interrupt_all s.shared.macro).0 ≡ false)
    × ((j : ℕ) × (t : System) × Turns
          (macro_set (interrupt_locked interrupt_all s.shared.macro).1 s)
          j
          t
        × (t.places ≡ sending (5 ∷ 6 ∷ []) ∷ []))
interrupt_all_lost_example =
    interrupt_all_lost staying new_globals staying-IsLimited refl refl refl refl (omega arith)
      (omega arith)

-- A macro with no run queued, which is started twice before its threads move
abbrev unqueued : Macro
unqueued = record ready { queued = 0 }

abbrev twice_started : System
twice_started = after_start true (after_start true (initial unqueued new_globals))

no_run_lost_example :
    (twice_started.shared.macro.interruptor ≡ continue)
    × ((twice_started.shared.macro.queued ≡ 0)
        ⊎ ((before : List Place) × (p : Place) × (after : List Place) × (twice_started.places
              ≡ before ++ p ∷ after)
            × (will_look p ≢ 0)))
no_run_lost_example =
    no_run_lost unqueued new_globals twice_started refl refl refl (begins (begins at_rest))

-- The macro is disabled before the reset thread reads its interruptor and empties the queue.
abbrev disabled : System
disabled = macro_set (interrupt_locked disable counted.shared.macro).1 counted

abbrev stopped : System
stopped = macro_set (dequeue interrupt_all disabled.shared.macro) disabled

stopped-asked : ResetSteps stopped (asking disable) 1 stopped (clearing disable)
unfolding dequeue interrupt_locked start
stopped-asked = by_reset no_step (Resets.asks_some (omega arith))

reset_ends_example :
    (1 ≤ 4 * weight disabled + 9)
    × (ResetGoesOn (clearing disable) stopped
        ⊎ ((clearing disable ≡ over)
            × (stopped.shared.macro ≡ record (disabled.shared.macro) {
              queued = 0;
              interruptor = interrupt_all;
              thread_count = stopped.shared.macro.thread_count;
              threads = stopped.shared.macro.threads;
            })
            × ((total made_at disabled.places ≢ 0) ⊎ (stopped.shared.macro.thread_count ≡ 0))))
unfolding interrupt_locked start
reset_ends_example =
    reset_ends ready new_globals disabled stopped 1 (clearing disable) refl (omega arith)
      (omega arith) (called counted-Reach (Call.interrupts disable)) refl stopped-asked
