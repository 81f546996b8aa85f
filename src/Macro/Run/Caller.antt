-- ===== src/Macro/Run/Caller.antt =====
-- `run` on the thread of a caller, which has no global slot and gives one back.
use libmacro.Prelude.{ℕ, ◌^◌, ◌<◌, ◌≡◌, ◌≢◌, ap, [], some, true, false, arith, inl}
use libmacro.Types.{continue}
use libmacro.Macro.Threads.{start}
use libmacro.Macro.Threads.Limits.{IsLimited}
use libmacro.Macro.Threads.Starting.{start_refused, start_spawns}
use libmacro.Macro.Run.{Scene, Environment, run}
use libmacro.Macro.Run.Loop.{run_quiet}
use libmacro.Macro.Run.Passes.{IsQuiet}

module _ {W : Type 0} (sent : ℕ → W → W) where
  -- Where all global slots are taken, of fewer than 2 ^ 32, a macro within its limits that is not
  -- interrupted, paused or sticky, counts fewer threads than it may have, and has a signal is
  -- refused a thread; once `run`, called on the thread of the caller, with more passes than there
  -- are queued runs and signals that leave the macro alone, has returned, a start makes one more
  -- thread.
  pub caller_frees_slot :
      (e : Environment W) (passes : ℕ) (r : Scene W)
      → IsQuiet sent e
      → r.macro.queued < passes
      → r.macro.interruptor ≡ continue
      → r.macro.sticky ≡ false
      → r.macro.signals ≢ []
      → r.macro.thread_count < r.macro.thread_max
      → r.globals.thread_limit < 2 ^ 32
      → IsLimited r.globals.thread_limit r.macro
      → r.globals.active ≡ r.globals.thread_limit
      → ((start true r.globals r.macro).spawned ≡ false)
        × ((t : Scene W) × (run e passes r ≡ some t)
            × ((start true t.globals t.macro).spawned ≡ true))
  caller_frees_slot e passes r quiet enough going st ne room narrow v full =
      let few = v.few_threads in
      let some_thread = v.some_thread in
      let emptied : IsLimited r.globals.thread_limit (record r.macro { queued = 0 }) = record {
        some_thread = v.some_thread;
        few_threads = v.few_threads;
        few_runs = omega arith;
      } in
      let ended = run_quiet sent e passes r quiet enough going st ne (omega arith) v in
      (
        ap (λ s. s.spawned)
            (start_refused true r.globals r.macro v (inl going, room) (omega (arith, full))),
        (
          _,
          ended,
          ap (λ s. s.spawned)
              (start_spawns _ _ emptied (inl going, room) (omega (arith, full, few, some_thread))),
        ),
      )
