-- ===== src/Tests/Composition.antt =====
-- Examples of macros, triggers and dispatchers together.
use libmacro.Prelude.{
  ℕ, ◌+◌, ◌≡◌, ◌≢◌, ◌⊎◌, ◌↔◌, refl, List, [], ◌∷◌, none, some, Bool, true, false, not, ◌&&◌, ◌==◌,
  if◌then◌else◌, arith,
}
use libmacro.Types.{all_mode}
use libmacro.Error.{ok}
use libmacro.Flags.Matching.{Matches}
use libmacro.Dispatcher.{Dispatcher, dispatch}
use libmacro.Dispatcher.Interface.{generic_dispatcher}
use libmacro.Dispatcher.Receivers.{IsWellFormed}
use libmacro.Dispatcher.History.{
  Registering, adds, removes, clears, replay, last_added, receivers_after, dispatch_history,
}
use libmacro.Trigger.{new_trigger}
use libmacro.Trigger.Laws.{action_of}
use libmacro.Macro.State.{Macro, new_globals, enabled}
use libmacro.Macro.Dispatching.{Heap, apply_dispatch}
use libmacro.Macro.Dispatching.Removal.{removed}
use libmacro.Macro.Dispatching.Preservation.{
  Keeps, apply_dispatch_kept, generic_added, generic_taken,
}
use libmacro.Macro.Copying.{copy_at, copy_interface}
use libmacro.Macro.Copying.Assignment.{self_assignment}
use libmacro.Library.{Library, act_macro, dispatch_signal, set_macro_triggers}
use libmacro.Library.Triggering.{IsSetUp, trigger_starts}
use libmacro.Macro.Threads.{start}
use libmacro.Macro.Run.{Scene, dispatch_signals}
use libmacro.Library.Chaining.{seen_by, library_environment, signal_starts}
use libmacro.Tests.Data.{heap, this, ready, busy, settle, ready-NotNull}
open generic_dispatcher use {registered}

-- The macro at 3, and an action at 8 that triggers on the modifier 1
abbrev library : Library
library = record {
  heap = heap;
  macro_of = λ _. ready;
  action_of = λ t. if t == 8 then some (action_of new_trigger 1 all_mode) else none;
  globals = new_globals;
}

library-IsSetUp : IsSetUp library this 8 5
library-IsSetUp = record {
  context = omega arith;
  real_this = omega arith;
  real_trigger = omega arith;
  real_old = ready-NotNull;
  real_dispatcher = omega arith;
  activator = refl;
  flag = refl;
  is_on = refl;
  sets = λ d r. omega arith;
  unshared = λ r h. cc;
}

trigger_starts_example :
    (l' : Library) × (set_macro_triggers this (8 ∷ []) library ≡ ok l')
    × ((Matches all_mode 1 3 × (dispatch_signal true 5 3 l' ≡ (false, (act_macro true this l').1)))
        ⊎ ((¬ Matches all_mode 1 3) × (dispatch_signal true 5 3 l' ≡ (false, l'))))
trigger_starts_example =
    trigger_starts true library this 8 5 1 3 new_trigger all_mode library-IsSetUp refl (omega arith)
      (omega arith)

ready-kept_once :
    Keeps IsWellFormed generic_dispatcher generic_added generic_taken
      (λ h. h)
      (apply_dispatch generic_dispatcher this ready heap)
ready-kept_once =
    apply_dispatch_kept IsWellFormed generic_dispatcher generic_added generic_taken this ready heap
      (λ d r. omega arith)

abbrev counts_calls : ℕ → ℕ → ℕ → ℕ → Bool × ℕ
counts_calls r signal mods calls = (r == 9, calls + r)

-- Two series of calls after which 4 and 7 are receivers
abbrev one_history : List Registering
one_history = adds 5 7 ∷ adds 5 4 ∷ []

abbrev other_history : List Registering
other_history = adds 6 4 ∷ removes 8 ∷ removes 0 ∷ adds 5 7 ∷ adds 5 8 ∷ clears ∷ adds 5 9 ∷ []

dispatch_history_example :
    (receivers_after 1 one_history ≡ receivers_after 1 other_history)
    × (((dispatch counts_calls (replay 1 one_history) 5 0 0).0 ≡ true)
        ↔ ((r : ℕ) × (r ≢ 0) × (last_added one_history r ≡ true) × ((r == 9) ≡ true)))
    × ((dispatch counts_calls (replay 1 one_history) 5 0 0).0
        ≡ (dispatch counts_calls (replay 1 other_history) 5 0 0).0)
    × (((dispatch counts_calls (replay 1 one_history) 5 0 0).0 ≡ true)
        ⊎ (dispatch counts_calls (replay 1 one_history) 5 0 0
            ≡ dispatch counts_calls (replay 1 other_history) 5 0 0))
dispatch_history_example =
    dispatch_history counts_calls 5 0 (λ r. r == 9) (λ r s. refl) 1 one_history other_history 0
      (λ q r s. omega arith) (λ r. ground arith)

self_assignment_example :
    (copy_interface settle generic_dispatcher 1 this this (λ _. busy) new_globals heap
      ≡ ok (busy, heap))
    × ((m' : Macro) × (h' : Heap Dispatcher) × (copy_at settle generic_dispatcher 1 this this
            (λ _. busy)
            new_globals
            heap
          ≡ ok (m', h'))
        × (enabled m' ≡ false)
        × ((d r : ℕ)
            → registered r (h'.net d)
              ≡ (registered r (heap.net d) && not (removed this (7 ∷ []) (20 ∷ []) 10 d r))))
self_assignment_example =
    self_assignment generic_dispatcher settle 0 this (λ _. busy) new_globals heap (λ m. refl)
      (omega arith) (omega arith) ready-NotNull

-- The signal 5 has a dispatcher that calls the macro at 9.
abbrev linked : Library
linked = record library {
  heap = record heap { net = λ d. record { context = 1; receivers = 9 ∷ [] } };
  action_of = λ _. none;
}

abbrev send_nothing : ℕ → Scene Library → Bool × Scene Library
send_nothing s r = (false, r)

another_started :
    let e = library_environment true this send_nothing (λ r. r) in
    (l' : Library) × (dispatch_signals e (5 ∷ 6 ∷ []) (seen_by this linked)
      ≡ dispatch_signals e (6 ∷ []) (seen_by this l'))
    × (l'.macro_of 9 ≡ (start true new_globals ready).macro)
    × (l'.globals ≡ (start true new_globals ready).globals)
    × (l'.macro_of this ≡ ready)
another_started =
    signal_starts true this 9 5 (6 ∷ []) send_nothing (λ r. r) linked refl (omega arith)
      (omega arith) refl (omega arith) refl (omega arith)
