-- ===== src/Tests/Program.antt =====
-- Examples of signals that the threads of macros send.
use libmacro.Prelude.{ℕ, ◌≡◌, ◌≢◌, refl, [], ◌∷◌, none, some, true, ◌==◌, if◌then◌else◌, arith}
use libmacro.Types.{disable, interrupt_all, all_mode, set}
use libmacro.Text.{text}
use libmacro.Error.{ok}
use libmacro.Dispatcher.Interface.{generic_dispatcher}
use libmacro.Signals.Modifier.{modifier_of}
use libmacro.Signals.NoOp.{new_noop}
use libmacro.Trigger.{new_trigger}
use libmacro.Trigger.Laws.{action_of}
use libmacro.Macro.State.{new_globals}
use libmacro.Macro.Run.{dispatch_signals}
use libmacro.Macro.Control.Interrupting.{interrupted, reapplied}
use libmacro.Library.{Library, dispatch_signal}
use libmacro.Library.Keeping.{IsDispatchedFrom, IsAllLimited, dispatch_keeps}
use libmacro.Program.{interrupts, modifies, waits, Program, seen_in, program_environment}
use libmacro.Program.Interrupts.{interrupt_sent}
use libmacro.Registry.Macros.{Table}
use libmacro.Tests.Data.{heap, this, busy, ready-NotNull}

-- The signal 5 has the dispatcher at 20, which knows the action at 8, with the macro at 9 as its
-- actor; the signals 6, 12 and 13 have none. Every macro runs one thread.
abbrev library : Library
library = record {
  heap = record heap { actor_of = λ _. 9; net = λ d. record { context = 1; receivers = 8 ∷ [] } };
  macro_of = λ _. busy;
  action_of = λ t. if t == 8 then some (action_of new_trigger 1 all_mode) else none;
  globals = new_globals;
}

abbrev program : Program
program = record {
  library = library;
  signal_of = λ a.
      if a == 6
      then modifies 1 (modifier_of set 1)
      else if a == 12
      then interrupts (record { target = 9; target_name = text "All"; value = disable })
      else if a == 13
      then interrupts (record { target = 3; target_name = text "All"; value = interrupt_all })
      else waits new_noop;
  registry_of = λ _. none;
  modifiers_of = λ _. 0;
  resets = [];
  slept = [];
}

library-IsAllLimited : IsAllLimited library
library-IsAllLimited b = record {
  some_thread = omega arith;
  few_threads = omega arith;
  few_runs = omega arith;
}

dispatch_keeps_example :
    let k = (dispatch_signal true 5 1 library).1 in IsDispatchedFrom library k × IsAllLimited k
dispatch_keeps_example = dispatch_keeps true 5 1 library library-IsAllLimited

-- The same for another macro
another_disabled :
    let e = program_environment true this (λ r. r) in
    (p' : Program) × (p'.library.macro_of 9 ≡ interrupted disable busy)
    × ((c : ℕ) → c ≢ 9 → p'.library.macro_of c ≡ busy)
    × (reapplied generic_dispatcher 9 disable busy library.heap ≡ ok p'.library.heap)
    × (p'.resets ≡ [])
    × (dispatch_signals e (12 ∷ 5 ∷ 6 ∷ []) (seen_in this program)
        ≡ dispatch_signals e (5 ∷ 6 ∷ []) (seen_in this p'))
another_disabled =
    interrupt_sent true this 9 12 (5 ∷ 6 ∷ []) disable (text "All") (λ r. r) program refl refl
      (omega arith) refl refl (omega arith) refl (omega arith) ready-NotNull refl

-- The registry at 30 names the macro at 9, twice, and the one that sends.
abbrev table : Table
table = (text "a", 9) ∷ (text "b", 3) ∷ (text "c", 9) ∷ []

abbrev registered_program : Program
registered_program = record program {
  signal_of = λ _. interrupts (record { target = 30; target_name = text "All"; value = disable });
  registry_of = λ a. if a == 30 then some table else none;
}
