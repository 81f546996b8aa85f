-- ===== src/Tests/Schedule.antt =====
-- Examples of the moves of a macro's threads.
use libmacro.Prelude.{
  ℕ, ◌+◌, ◌*◌, All, ◌↔◌, ◌≤◌, ◌≡◌, ◌⊎◌, refl, List, [], ◌∷◌, some, true, false, arith,
}
use libmacro.Types.{disable, continue, interrupt}
use libmacro.Macro.Schedule.{entered, completing, sending}
use libmacro.Macro.Schedule.Waiting.{wait_over, NoneInside, wait_over_iff}
use libmacro.Macro.Schedule.Bursts.{interrupt_burst}
use libmacro.Macro.Schedule.Crowds.{sticky_lost, queue_shared}
use libmacro.Macro.Threads.Limits.{IsLimited}
use libmacro.Macro.State.{Macro, new_globals, enabled}
use libmacro.Macro.Threads.{start, dequeue}
use libmacro.Macro.Control.{interrupt_locked}
use libmacro.Macro.Pool.{at_rest}
use libmacro.Macro.Pool
use libmacro.Macro.Run.{Scene, Environment, run}
use libmacro.Macro.Schedule.{
  System, Turn, Call, Reach, here, called, initial, after_start, macro_set, fresh, gone,
}
use libmacro.Macro.Schedule.Refinement.{pool_of, schedule_refines}
use libmacro.Macro.Schedule.Ending.{IsStopped, sendings, Turns, no_turn, weight}
use libmacro.Macro.Schedule.Settling.{threads_settle}
use libmacro.Macro.Schedule.Moves.{with_thread}
use libmacro.Macro.Schedule.Alone.{shared_of, run_refines}
use libmacro.Macro.Schedule.Places.{total, is_consuming}
use libmacro.Macro.Schedule.Clearing.{
  looking, testing_last, finished, undecided, IsGone, Clears, Together, no_step, by_caller,
}
use libmacro.Macro.Schedule.ClearingEnd.{GoesOn, clear_ends, clear_undecided}
use libmacro.Macro.Schedule.Races.{disable_lost}
use libmacro.Tests.Data.{ready, ready-IsLimited, scene}

-- A thread has been made, and then the macro has been disabled.
abbrev begun : System
begun = after_start true (initial ready new_globals)

abbrev halted : System
halted = macro_set (interrupt_locked disable begun.shared.macro).1 begun

abbrev dequeued : System
dequeued = macro_set (dequeue disable begun.shared.macro) begun

halted-Reach : Reach (initial ready new_globals) halted
halted-Reach = called (called here (Call.starts true)) (Call.interrupts disable)

halted-IsStopped : IsStopped halted
unfolding start interrupt_locked
halted-IsStopped = record { stopped = refl; none_consuming = refl }

schedule_refines_example : Pool.Reach (at_rest ready new_globals) (pool_of halted)
schedule_refines_example = schedule_refines ready new_globals halted halted-Reach

threads_settle_example :
    (0 ≤ weight halted)
    × (sendings halted ≡ sendings halted)
    × (((u : System) × Turn halted u)
        ⊎ ((halted.shared.macro.thread_count ≡ 0) × (halted.shared.globals.active ≡ 0)))
threads_settle_example =
    threads_settle ready new_globals halted halted 0 refl (omega arith) (omega arith) halted-Reach
      halted-IsStopped no_turn

disable_lost_example :
    (s : System) × (t : System) × (n : ℕ) × Reach (initial ready new_globals) s
    × (s.shared.macro.interruptor ≡ disable)
    × Turns s n t
    × (enabled t.shared.macro ≡ true)
disable_lost_example = disable_lost ready new_globals ready-IsLimited refl refl (omega arith)

halted_wait : (wait_over halted.shared ≡ true) ↔ NoneInside halted
halted_wait = wait_over_iff ready new_globals halted refl (omega arith) (omega arith) halted-Reach

three_interrupted :
    (s : System) × Reach (initial ready new_globals) s
    × (s.places ≡ entered ∷ entered ∷ entered ∷ [])
    × (s.shared.macro.interruptor ≡ continue)
    × ((j : ℕ) × (t : System) × Turns
          (macro_set (interrupt_locked interrupt s.shared.macro).1 s)
          j
          t
        × (t.places ≡ completing ∷ completing ∷ completing ∷ []))
three_interrupted = interrupt_burst ready new_globals 3 ready-IsLimited refl refl (omega arith)

-- The destructor does not see the thread that has been made, and looks again.
looked_past : Together disable dequeued looking 1 dequeued testing_last
unfolding start dequeue
looked_past = by_caller no_step (Clears.sees_none refl)

clear_ends_example :
    (1 ≤ 4 * weight begun + 5)
    × (GoesOn disable dequeued testing_last
        ⊎ (testing_last ≡ undecided)
        ⊎ ((testing_last ≡ finished)
            × All IsGone dequeued.places
            × (dequeued.shared.macro
                ≡ record (dequeue disable begun.shared.macro) { thread_count = 0; threads = 0 })))
unfolding start
clear_ends_example =
    clear_ends ready new_globals begun dequeued disable true 1 testing_last refl (omega arith)
      (omega arith) (called here (Call.starts true)) refl refl looked_past

clear_undecided_example :
    (s : System) × (t : System) × (n : ℕ) × Reach (initial ready new_globals) s
    × (total is_consuming s.places ≡ 0)
    × Together disable (macro_set (dequeue disable s.shared.macro) s) looking n t undecided
clear_undecided_example = clear_undecided ready new_globals ready-IsLimited refl refl (omega arith)

-- A sticky macro
abbrev staying : Macro
staying = record ready { sticky = true }

staying-IsLimited : IsLimited 0x10 staying
staying-IsLimited = record {
  some_thread = ready-IsLimited.some_thread;
  few_threads = ready-IsLimited.few_threads;
  few_runs = ready-IsLimited.few_runs;
}

sticky_lost_example :
    (s : System) × Reach (initial staying new_globals) s
    × (s.places ≡ entered ∷ entered ∷ [])
    × (s.shared.macro.sticky ≡ true)
    × (s.shared.macro.interruptor ≡ continue)
    × ((j : ℕ) × (t : System) × Turns s j t
        × (t.shared ≡ s.shared)
        × (t.places ≡ completing ∷ completing ∷ []))
sticky_lost_example =
    sticky_lost staying new_globals 2 staying-IsLimited refl refl refl refl (omega arith)
      (omega arith) (omega arith)

-- Three threads, for two runs, of a macro that may have two
queue_shared_example :
    (s : System) × Reach (initial ready new_globals) s
    × (s.places ≡ entered ∷ entered ∷ entered ∷ [])
    × (s.shared.macro.thread_count ≡ 3)
    × (s.shared.macro.queued ≡ 2)
    × ((j : ℕ) × (t : System) × Turns s j t
        × (t.places ≡ sending (5 ∷ 6 ∷ []) ∷ sending (5 ∷ 6 ∷ []) ∷ sending (5 ∷ 6 ∷ []) ∷ []))
queue_shared_example =
    queue_shared ready new_globals 3 ready-IsLimited refl refl refl (omega arith) (omega arith)
      (omega arith)

-- A world that keeps the signals, the last first
abbrev keeping : Environment (List ℕ)
keeping = record {
  dispatcher_of = λ s r. 0;
  dispatch = λ d s r. (false, record r { world = s ∷ r.world });
  send = λ s r. (false, record r { world = s ∷ r.world });
  resumed = λ r. r;
}

abbrev ended : Scene (List ℕ)
ended = record {
  macro = record ready { queued = 0 };
  globals = new_globals;
  world = 6 ∷ 5 ∷ 6 ∷ 5 ∷ [];
}

scene-ended : run keeping 3 scene ≡ some ended
unfolding run
scene-ended = refl

run_refines_example :
    (n : ℕ) × Turns
      (with_thread (fresh ∷ []) (gone ∷ []) 1 (shared_of scene) fresh)
      n
      (with_thread (fresh ∷ []) (gone ∷ []) 1 (shared_of ended) gone)
run_refines_example =
    run_refines keeping (λ a r. refl) 3 scene ended (fresh ∷ []) (gone ∷ []) 1 refl scene-ended
