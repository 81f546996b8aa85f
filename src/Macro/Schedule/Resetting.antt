-- ===== src/Macro/Schedule/Resetting.antt =====
-- `resetThread`, on the thread that an INTERRUPT_ALL detaches: its steps, between which the macro's
-- threads move.
use libmacro.Prelude.{ℕ, suc, ◌≡◌, ◌≢◌, true, false}
use libmacro.Types.{Interrupt, continue, interrupt_all}
use libmacro.Macro.State.{is_disable}
use libmacro.Macro.Threads.{dequeue}
use libmacro.Macro.Control.{interrupt_locked}
use libmacro.Macro.Schedule.{System, Turn, macro_set}
use libmacro.Macro.Schedule.Clearing.{Phase, waiting_once, finished, Clears}

-- Where the call stands: `noting` before it reads the interruptor, `stopping` before its `dequeue`, and
-- `asking` before `running()`; `clearing` before the `dequeue` of `clearThreads`, and `within` after it;
-- `judging` before the test of the interruptor that was read; `comparing` and `setting` in
-- `setInterruptor(CONTINUE)`, before the test for another value and before the change under the lock;
-- and `over` after it.
pub data ResetPhase : Type 0 where
  noting comparing setting over : ResetPhase
  stopping asking clearing judging : Interrupt → ResetPhase
  within : Interrupt → Phase → ResetPhase

-- A step of the call
pub data Resets (s : System) : ResetPhase → System → ResetPhase → Type 0 where
  notes : Resets s noting s (stopping s.shared.macro.interruptor)
  stops :
      {prev : Interrupt}
      → Resets s (stopping prev) (macro_set (dequeue interrupt_all s.shared.macro) s) (asking prev)
  asks_none :
      {prev : Interrupt} → s.shared.macro.thread_count ≡ 0 → Resets s (asking prev) s (judging prev)
  asks_some :
      {prev : Interrupt}
      → s.shared.macro.thread_count ≢ 0
      → Resets s (asking prev) s (clearing prev)
  clears :
      {prev : Interrupt}
      → Resets s
          (clearing prev)
          (macro_set (dequeue interrupt_all s.shared.macro) s)
          (within prev waiting_once)
  goes_on :
      {prev : Interrupt} {t : System} {q r : Phase}
      → Clears interrupt_all s q t r
      → Resets s (within prev q) t (within prev r)
  cleared : {prev : Interrupt} → Resets s (within prev finished) s (judging prev)
  stays_off : {prev : Interrupt} → is_disable prev ≡ true → Resets s (judging prev) s over
  continues : {prev : Interrupt} → is_disable prev ≡ false → Resets s (judging prev) s comparing
  unchanged : s.shared.macro.interruptor ≡ continue → Resets s comparing s over
  changes : s.shared.macro.interruptor ≢ continue → Resets s comparing s setting
  sets : Resets s setting (macro_set (interrupt_locked continue s.shared.macro).1 s) over

-- Steps of the call and, until it has returned, moves of the threads, and how many
pub data ResetSteps (s : System) (p : ResetPhase) : ℕ → System → ResetPhase → Type 0 where
  no_step : ResetSteps s p 0 s p
  by_thread :
      {n : ℕ} {t u : System} {q : ResetPhase}
      → ResetSteps s p n t q
      → q ≢ over
      → Turn t u
      → ResetSteps s p (suc n) u q
  by_reset :
      {n : ℕ} {t u : System} {q r : ResetPhase}
      → ResetSteps s p n t q
      → Resets t q u r
      → ResetSteps s p (suc n) u r
