-- ===== src/Tests/Threads.antt =====
-- Examples of the threads of a macro: their limits, their start, their run and their counts.
use libmacro.Prelude.{
  ℕ, ◌≡◌, refl, List, [], ◌∷◌, none, some, true, false, ◌==◌, if◌then◌else◌, arith,
}
use libmacro.Types.{interrupt, interrupt_all}
use libmacro.Macro.State.{new_globals}
use libmacro.Macro.Run.{Scene, Environment, dispatch_signals, run}
use libmacro.Macro.Run.Caller.{caller_frees_slot}
use libmacro.Macro.Threads.{start}
use libmacro.Macro.Run.Loop.{run_quiet, run_sticky}
use libmacro.Macro.Run.Interrupts.{dispatch_signals_cut, run_interrupted}
use libmacro.Macro.Pool.{Pool, Reach, here, later, starts, started, at_rest}
use libmacro.Macro.Pool.Counts.{IsCounted, threads_bounded}
use libmacro.Macro.Pool.Draining.{threads_drain}
use libmacro.Macro.Pool.Starts.{thread_max_overrun}
use libmacro.Tests.Data.{ready, ready-IsLimited, log, quiet, scene}

run_quiet_example :
    run quiet 3 scene
    ≡ some (record {
      macro = record ready { queued = 0 };
      globals = new_globals;
      world = 5 ∷ 6 ∷ 5 ∷ 6 ∷ [];
    })
run_quiet_example =
    run_quiet log quiet 3 scene (λ s r. refl) (omega arith) refl refl (λ e. cc) (omega arith)
      ready-IsLimited

-- All global slots are taken.
abbrev full : Scene (List ℕ)
full = record scene { globals = record new_globals { active = 0x10 } }

caller_frees_slot_example :
    ((start true full.globals full.macro).spawned ≡ false)
    × ((t : Scene (List ℕ)) × (run quiet 3 full ≡ some t)
        × ((start true t.globals t.macro).spawned ≡ true))
caller_frees_slot_example =
    caller_frees_slot log quiet 3 full (λ s r. refl) (omega arith) refl refl (λ e. cc) (omega arith)
      (omega arith) ready-IsLimited refl

run_sticky_example : run quiet 100 (record scene { macro = record ready { sticky = true } }) ≡ none
run_sticky_example =
    run_sticky log quiet 100 (record scene { macro = record ready { sticky = true } }) (λ s r. refl)
      refl refl (λ e. cc) refl
      (record { some_thread = omega arith; few_threads = omega arith; few_runs = omega arith })

run_interrupted_example :
    run quiet 1 (record scene { macro = record ready { interruptor = interrupt } })
    ≡ some (record scene { globals = new_globals })
run_interrupted_example =
    run_interrupted quiet 0 (record scene { macro = record ready { interruptor = interrupt } })
      (λ e. cc) (λ e. cc) (omega arith)

-- The signal 6 interrupts the macro.
abbrev cutting : Environment (List ℕ)
cutting = record quiet {
  send = λ s r. (
    false,
    record r {
      macro = if s == 6 then record (r.macro) { interruptor = interrupt_all } else r.macro;
      world = log s r.world;
    },
  );
}

rest_unsent : dispatch_signals cutting (5 ∷ 6 ∷ 7 ∷ []) scene ≡ (
  false,
  record scene { macro = record ready { interruptor = interrupt_all }; world = 5 ∷ 6 ∷ [] },
)
rest_unsent =
    dispatch_signals_cut cutting (5 ∷ 6 ∷ []) (7 ∷ []) scene
      (record scene { macro = record ready { interruptor = interrupt_all }; world = 5 ∷ 6 ∷ [] })
      (unfold dispatch_signals in refl) refl

threads_bounded_example : IsCounted (started true (at_rest ready new_globals))
threads_bounded_example =
    threads_bounded ready new_globals (started true (at_rest ready new_globals)) refl (omega arith)
      (omega arith) (later here (starts true))

drained :
    (q : Pool) × Reach (started true (at_rest ready new_globals)) q
    × (q.macro.thread_count ≡ 0)
    × (q.globals.active ≡ 0)
drained =
    threads_drain ready new_globals (started true (at_rest ready new_globals)) refl (omega arith)
      (omega arith) (later here (starts true))

nine_threads :
    (p : Pool) × Reach (at_rest ready new_globals) p
    × (p.macro.thread_count ≡ 9)
    × (p.macro.thread_max ≡ 2)
nine_threads =
    thread_max_overrun ready new_globals 9 ready-IsLimited refl refl (omega arith) (omega arith)
