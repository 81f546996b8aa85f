-- ===== src/Macro/Schedule/Clearing.antt =====
-- `clearThreads`, as the destructor and the reset thread call it: its steps after the first `dequeue`,
-- between which the macro's threads move.
use libmacro.Prelude.{ℕ, suc, ◌≡◌, ◌≢◌, Bool, true, false, All}
use libmacro.Types.{Interrupt}
use libmacro.Macro.Threads.{dequeue}
use libmacro.Macro.Schedule.{Place, gone, System, Turn, macro_set}

-- Where the call stands: `looking` before the first `running()`; `emptying` before the `dequeue` of
-- the loop, `awaiting` in the wait, and `retesting` before the test at its end; `testing_last` before
-- the second `running()` where the loop was passed over; `waiting_once` in the wait without a sticky
-- interrupt; `joining` before `joinAllThreads`, and
-- `finished` after it. The second `running()` is followed by a test of `threadStatus`, which has no
-- value where there was no loop: the call is then `undecided`. After the loop the status is that of
-- a wait without a time limit, so that the second `running()` does not matter.
pub data Phase : Type 0 where
  looking emptying awaiting retesting testing_last waiting_once joining finished undecided : Phase

-- Where the call stands after its first `dequeue`, with a sticky interrupt or without
abbrev pub first_phase : Bool → Phase
first_phase true = looking
first_phase false = waiting_once

abbrev pub IsGone : Place → Type 0
IsGone p = p ≡ gone

-- A step of the call
pub data Clears (v : Interrupt) (s : System) : Phase → System → Phase → Type 0 where
  sees_none : s.shared.macro.thread_count ≡ 0 → Clears v s looking s testing_last
  sees_some : s.shared.macro.thread_count ≢ 0 → Clears v s looking s emptying
  empties : Clears v s emptying (macro_set (dequeue v s.shared.macro) s) awaiting
  wakes : s.shared.macro.thread_count ≡ 0 → Clears v s awaiting s retesting
  goes_round : s.shared.macro.thread_count ≢ 0 → Clears v s retesting s emptying
  leaves_loop : s.shared.macro.thread_count ≡ 0 → Clears v s retesting s joining
  sees_none_again : s.shared.macro.thread_count ≡ 0 → Clears v s testing_last s joining
  sees_late : s.shared.macro.thread_count ≢ 0 → Clears v s testing_last s undecided
  wakes_once : s.shared.macro.thread_count ≡ 0 → Clears v s waiting_once s joining
  joins :
      All IsGone s.places
      → Clears v s joining (macro_set (record (s.shared.macro) { threads = 0 }) s) finished

-- Steps of the call and moves of the threads, and how many
pub data Together (v : Interrupt) (s : System) (p : Phase) : ℕ → System → Phase → Type 0 where
  no_step : Together v s p 0 s p
  by_thread :
      {n : ℕ} {t u : System} {q : Phase}
      → Together v s p n t q
      → Turn t u
      → Together v s p (suc n) u q
  by_caller :
      {n : ℕ} {t u : System} {q r : Phase}
      → Together v s p n t q
      → Clears v t q u r
      → Together v s p (suc n) u r
