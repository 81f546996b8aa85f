-- ===== src/Macro/Schedule.antt =====
-- src/macro.cpp: the threads of one macro, each with its place in `run`. Between two steps of a
-- thread, others may take steps and the macro's functions may be called from anywhere, also by the
-- signals that a thread sends. `setSignals` is refused while a thread is counted, and the assignment
-- of a `copy` is a step only where none is, so that a thread that reads the signals sees them stand
-- still. Each test of a thread is a step; `sticky`
-- and `threadCount` are read in one, and so are the tests before a signal is sent.
pub mod Places
pub mod Refinement
pub mod Ending
pub mod Settling
pub mod Destruction
pub mod Clearing
pub mod Cleared
pub mod ClearingEnd
pub mod OwnClearing
pub mod Races
pub mod Waiting
pub mod Bursts
pub mod Crowds
pub mod Moves
pub mod Alone
pub mod Overtaken
pub mod Runs
pub mod RunsKept
pub mod Invariant
pub mod Resetting
pub mod ResettingKept
pub mod ResettingLate
pub mod ResettingEnd
use libmacro.Prelude.{
  ℕ, ◌+◌, ◌-◌, ◌<◌, ◌≡◌, ◌≢◌, List, [], ◌∷◌, ◌++◌, Bool, true, false, not, ◌==◌, ◌||◌, ◌&&◌, ltb,
  if◌then◌else◌,
}
use libmacro.Types.{Interrupt, continue, pause, interrupt, interrupt_all}
use libmacro.Macro.State.{Macro, Globals}
use libmacro.Macro.Dispatching.{is_empty}
use libmacro.Macro.Threads.{start, dequeue, dec_queued}
use libmacro.Macro.Control.{same_interrupt, interrupt_locked}
use libmacro.Macro.Run.{up, down, at_least}
use libmacro.Macro.Pool.{with_active, with_threads}
use libmacro.Macro.Setting.{Setting}

-- Where a thread stands: `fresh` before `runPreamble`; `entered` and `head` before
-- `consumeInterrupt`; `consuming` once that has seen INTERRUPT; `ready` before the test for signals;
-- `testing` before the test for an end; `deciding` before `isIdle`, `lingering` where that found no
-- run queued, and `taking` before `decQueued`; `sending` in `dispatchSignals` with the signals that
-- are left, and `delivering` one that has passed the tests; `pausing` and `waiting` before and in `pauseLoop`; `completing` and
-- `leaving` before the two halves of `onRunComplete`; and `gone` after them.
pub data Place : Type 0 where
  fresh entered ready head consuming testing deciding lingering taking pausing waiting completing
        leaving gone :
      Place
  sending : List ℕ → Place
  delivering : ℕ → List ℕ → Place

-- What the threads share, with the signals sent so far, the last first
pub record Shared : Type 0 where
  pub macro : Macro
  pub globals : Globals
  pub sent : List ℕ

-- The thread is not to stay for a sticky macro.
abbrev pub dispensable : Macro → Bool
dispensable m = not m.sticky || ltb 1 m.thread_count

abbrev pub interrupted_now : Macro → Bool
interrupted_now m = same_interrupt m.interruptor interrupt

abbrev pub paused_now : Macro → Bool
paused_now m = same_interrupt m.interruptor pause

abbrev pub stopped_now : Macro → Bool
stopped_now m = at_least m.interruptor interrupt_all

abbrev pub with_macro : Macro → Shared → Shared
with_macro m s = record s { macro = m }

pub data Move (s : Shared) : Place → Shared → Place → Type 0 where
  -- `runPreamble`
  enter : Move s fresh (with_macro (with_threads (up s.macro.thread_count) s.macro) s) entered
  preamble_interrupted : interrupted_now s.macro ≡ true → Move s entered s consuming
  preamble_free : interrupted_now s.macro ≡ false → Move s entered s ready
  no_signals : is_empty s.macro.signals ≡ true → Move s ready s completing
  some_signals : is_empty s.macro.signals ≡ false → Move s ready s pausing
  -- `pauseIfInterrupted`
  pauses : paused_now s.macro ≡ true → Move s pausing s waiting
  goes_on : paused_now s.macro ≡ false → Move s pausing s head
  resumes : paused_now s.macro ≡ false → Move s waiting s head
  -- `consumeInterrupt`, and `setInterruptor(CONTINUE)` at its end
  loop_interrupted : interrupted_now s.macro ≡ true → Move s head s consuming
  loop_free : interrupted_now s.macro ≡ false → Move s head s testing
  consume : Move s consuming (with_macro (interrupt_locked continue s.macro).1 s) completing
  -- The loop of `run`
  stops : stopped_now s.macro ≡ true → Move s testing s completing
  decides : stopped_now s.macro ≡ false → Move s testing s deciding
  is_idle : s.macro.queued ≡ 0 → Move s deciding s lingering
  is_busy : s.macro.queued ≢ 0 → Move s deciding s taking
  leaves : dispensable s.macro ≡ true → Move s lingering s completing
  stays : dispensable s.macro ≡ false → Move s lingering s (sending s.macro.signals)
  takes :
      Move s taking
        (with_macro (dec_queued s.globals.thread_limit s.macro) s)
        (sending s.macro.signals)
  -- `dispatchSignals`
  breaks : {a : ℕ} {ss : List ℕ} → stopped_now s.macro ≡ true → Move s (sending (a ∷ ss)) s pausing
  skips :
      {a : ℕ} {ss : List ℕ}
      → stopped_now s.macro ≡ false
      → (at_least s.macro.interruptor interrupt || a == 0) ≡ true
      → Move s (sending (a ∷ ss)) s (sending ss)
  passes :
      {a : ℕ} {ss : List ℕ}
      → (at_least s.macro.interruptor interrupt || a == 0) ≡ false
      → Move s (sending (a ∷ ss)) s (delivering a ss)
  sends :
      {a : ℕ} {ss : List ℕ} → Move s (delivering a ss) (record s { sent = a ∷ s.sent }) (sending ss)
  throws :
      {a : ℕ} {ss : List ℕ} → Move s (delivering a ss) (record s { sent = a ∷ s.sent }) completing
  all_sent : Move s (sending []) s pausing
  -- `onRunComplete`
  complete :
      Move s completing (with_macro (with_threads (down s.macro.thread_count) s.macro) s) leaving
  release :
      Move s leaving (record s { globals = with_active (s.globals.active - 1) s.globals }) gone

-- The threads of the macro in the order in which they were made, and how many others there are.
pub record System : Type 0 where
  pub shared : Shared
  pub places : List Place
  pub others : ℕ

-- A move of one thread
pub data Turn (s : System) : System → Type 0 where
  turn :
      {here there : Place} {shared : Shared} (before after : List Place)
      → s.places ≡ before ++ here ∷ after
      → Move s.shared here shared there
      → Turn s (record s { shared = shared; places = before ++ there ∷ after })

abbrev pub with_globals : Globals → System → System
with_globals g s = record s { shared = record (s.shared) { globals = g } }

abbrev pub macro_set : Macro → System → System
macro_set m s = record s { shared = with_macro m s.shared }

-- The system after a call of `start`
abbrev pub after_start : Bool → System → System
after_start available s =
    let called = start available s.shared.globals s.shared.macro in
    record s {
      shared = record (s.shared) { macro = called.macro; globals = called.globals };
      places = if called.spawned then s.places ++ (fresh ∷ []) else s.places;
    }

-- A step of a call of one of the macro's functions, or what another macro does to the global count.
-- `interrupts` and `dequeues` are the locked parts of those that change the interruptor,
-- `interrupts` also for the value that it has, and `sets` a step of a setter or a copy. The global
-- limit stands still.
pub data Call (s : System) : System → Type 0 where
  starts : (available : Bool) → Call s (after_start available s)
  interrupts : (v : Interrupt) → Call s (macro_set (interrupt_locked v s.shared.macro).1 s)
  dequeues : (v : Interrupt) → Call s (macro_set (dequeue v s.shared.macro) s)
  sets :
      {m : Macro} → Setting s.shared.globals.thread_limit s.shared.macro m → Call s (macro_set m s)
  other_starts :
      s.shared.globals.active < s.shared.globals.thread_limit
      → Call s
          (record (with_globals (with_active (s.shared.globals.active + 1) s.shared.globals) s) {
            others = s.others + 1;
          })
  other_releases :
      {n : ℕ}
      → s.others ≡ n + 1
      → Call s
          (record (with_globals (with_active (s.shared.globals.active - 1) s.shared.globals) s) {
            others = n;
          })

pub data Reach (s : System) : System → Type 0 where
  here : Reach s s
  turned : {t u : System} → Reach s t → Turn t u → Reach s u
  called : {t u : System} → Reach s t → Call t u → Reach s u

-- The system before any thread of the macro has been made
abbrev pub initial : Macro → Globals → System
initial m g = record {
  shared = record { macro = m; globals = g; sent = [] };
  places = [];
  others = g.active;
}
