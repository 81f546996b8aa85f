-- ===== src/Tests/Dispatch.antt =====
-- Examples of dispatchers, triggers and the registration of macros.
use libmacro.Prelude.{ℕ, ◌+◌, ◌≡◌, refl, [], ◌∷◌, Bool, true, false, ◌==◌, arith}
use libmacro.Error.{ok}
use libmacro.Dispatcher.{Dispatcher, dispatch}
use libmacro.Dispatcher.Interface.{generic_dispatcher}
use libmacro.Dispatcher.Dispatch.{Outcome, dispatch-Outcome}
use libmacro.Trigger.{list_receive}
use libmacro.Trigger.Laws.{receive_all, list_receive-receive_all}
use libmacro.Macro.Dispatching.{Heap, remove_dispatch, apply_dispatch}
use libmacro.Macro.Dispatching.Registration.{applied, apply_dispatch_lem, trigger_leak}
use libmacro.Tests.Data.{heap, this, ready, generic_macro, ready-NotNull}
open generic_dispatcher use {registered}

apply_dispatch_lem_example :
    (h' : Heap Dispatcher) × (apply_dispatch generic_dispatcher this ready heap ≡ ok h')
    × (h'.dispatcher_of ≡ heap.dispatcher_of)
    × (h'.generic_of ≡ heap.generic_of)
    × (h'.actor_of ≡ heap.actor_of)
    × ((d r : ℕ)
        → registered r (h'.net d)
          ≡ applied generic_dispatcher this ready heap d r (registered r (heap.net d)))
apply_dispatch_lem_example =
    apply_dispatch_lem generic_dispatcher this ready heap (omega arith) (omega arith) ready-NotNull

trigger_leak_example :
    (h1 : Heap Dispatcher) × (h2 : Heap Dispatcher) × (apply_dispatch generic_dispatcher this
        generic_macro heap
      ≡ ok h1)
    × (remove_dispatch generic_dispatcher this generic_macro h1 ≡ ok h2)
    × (registered 7 (h2.net 10) ≡ true)
    × (registered this (h2.net 10) ≡ false)
trigger_leak_example =
    trigger_leak generic_dispatcher this 7 generic_macro heap (omega arith) (omega arith)
      ready-NotNull refl refl refl refl (omega arith) (omega arith)

abbrev two_receivers : Dispatcher
two_receivers = record { context = 1; receivers = 4 ∷ 8 ∷ [] }

abbrev blocks_at_eight : ℕ → ℕ → ℕ → ℕ → Bool × ℕ
blocks_at_eight r signal mods calls = (r == 8, calls + 1)

dispatch-Outcome_example :
    Outcome blocks_at_eight 5 0 (4 ∷ 8 ∷ []) 0 (dispatch blocks_at_eight two_receivers 5 0 0)
dispatch-Outcome_example = dispatch-Outcome blocks_at_eight 5 0 two_receivers 0

abbrev counts_number : ℕ → ℕ → ℕ → ℕ → Bool × ℕ
counts_number t signal mods calls = (t == 1, calls + t)

list_receive-receive_all_example :
    list_receive counts_number (1 ∷ 2 ∷ []) 5 0 0
    ≡ (true, receive_all counts_number (1 ∷ 2 ∷ []) 5 0 0)
list_receive-receive_all_example = list_receive-receive_all counts_number (1 ∷ 2 ∷ []) 5 0 0
