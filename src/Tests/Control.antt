-- ===== src/Tests/Control.antt =====
-- Examples of the calls that change, interrupt and end a macro.
use libmacro.Prelude.{
  ℕ, ◌≡◌, refl, [], ◌∷◌, true, false, not, ◌&&◌, ◌==◌, if◌then◌else◌, arith, has,
}
use libmacro.Types.{interrupt_value, continue, interrupt_all, disable}
use libmacro.Error.{ok, throw, crash, blocked}
use libmacro.Dispatcher.{Dispatcher}
use libmacro.Dispatcher.Interface.{generic_dispatcher}
use libmacro.Macro.State.{Macro, new_globals}
use libmacro.Macro.Dispatching.{
  Heap, apply_dispatch, reapply_dispatch, remove_dispatch, add_dispatch,
}
use libmacro.Macro.Control.Switching.{out_of, off_and_on}
use libmacro.Macro.Dispatching.Removal.{removed}
use libmacro.Macro.Threads.{limit_max_threads}
use libmacro.Macro.Control.{
  set_enabled, set_triggers, set_interruptor, reset_thread, clear_threads, disable_everything,
}
use libmacro.Macro.Control.Setters.{changed, set_triggers_lem}
use libmacro.Macro.Control.Interrupting.{
  reapplied, interrupted, set_interruptor_total, reset_thread_lem,
}
use libmacro.Macro.Control.Clearing.{cleared, clear_threads_lem, disable_everything_lem}
use libmacro.Macro.Copying.{copy}
use libmacro.Macro.Copying.Assignment.{copied, copy_lem}
use libmacro.Tests.Data.{heap, this, ready, busy, settle, ready-NotNull}
open generic_dispatcher use {registered}

triggers_exchanged :
    (h' : Heap Dispatcher) × (set_triggers generic_dispatcher this (8 ∷ []) ready heap
      ≡ ok (record ready { triggers = 8 ∷ [] }, h'))
    × (h'.dispatcher_of ≡ heap.dispatcher_of)
    × ((t : ℕ) → h'.actor_of t ≡ (if not (t == 0) && has t (8 ∷ []) then this else 0))
    × ((d r : ℕ)
        → registered r (h'.net d)
          ≡ changed generic_dispatcher this ready (record ready { triggers = 8 ∷ [] }) heap d r)
triggers_exchanged =
    set_triggers_lem generic_dispatcher this (8 ∷ []) ready heap (omega arith) (omega arith)
      ready-NotNull (omega arith, tt)

set_interruptor_total_example :
    (h' : Heap Dispatcher) × (reapplied generic_dispatcher this disable busy heap ≡ ok h')
    × (set_interruptor generic_dispatcher this (interrupt_value disable) busy heap
        ≡ ok (record { macro = interrupted disable busy; heap = h'; resets = false }))
set_interruptor_total_example =
    set_interruptor_total generic_dispatcher this disable busy heap (omega arith) (omega arith)
      ready-NotNull refl

thread_reset :
    reset_thread settle generic_dispatcher 0 this (record busy { interruptor = interrupt_all }) heap
    ≡ ok (record busy { queued = 0; interruptor = continue; thread_count = 0; threads = 0 }, heap)
thread_reset =
    reset_thread_lem generic_dispatcher settle 0 this (record busy { interruptor = interrupt_all })
      heap (λ m. refl)

threads_cleared :
    clear_threads settle 1 interrupt_all true busy
    ≡ ok (record busy { queued = 0; interruptor = interrupt_all; thread_count = 0; threads = 0 })
threads_cleared = clear_threads_lem settle 0 interrupt_all true busy refl (λ m. refl)

destroyed :
    (h' : Heap Dispatcher) × (disable_everything settle generic_dispatcher 1 this busy heap
      ≡ ok (cleared disable busy, h'))
    × (h'.dispatcher_of ≡ heap.dispatcher_of)
    × (h'.generic_of ≡ heap.generic_of)
    × (h'.actor_of ≡ heap.actor_of)
    × ((d r : ℕ)
        → registered r (h'.net d)
          ≡ (registered r (heap.net d) && not (removed this (7 ∷ []) (20 ∷ []) 10 d r)))
destroyed =
    disable_everything_lem generic_dispatcher settle 0 this busy heap (λ m. refl) (omega arith)
      (omega arith) ready-NotNull

copy_lem_example :
    let other = record ready { triggers = 8 ∷ [] } in
    let m' = limit_max_threads 16 (copied other) in
    (h' : Heap Dispatcher) × (copy settle generic_dispatcher 1 this other new_globals busy heap
      ≡ ok (m', h'))
    × ((t : ℕ) → h'.actor_of t ≡ (if not (t == 0) && has t (8 ∷ []) then this else 0))
    × ((d r : ℕ)
        → registered r (h'.net d) ≡ changed generic_dispatcher this busy (copied other) heap d r)
copy_lem_example =
    copy_lem generic_dispatcher settle 0 this (record ready { triggers = 8 ∷ [] }) busy new_globals
      heap (λ m. refl) (omega arith) (omega arith) (omega arith) ready-NotNull (omega arith, tt)

-- The heap after the dispatch of the macro has been applied
abbrev applied_heap : Heap Dispatcher
unfolding apply_dispatch reapply_dispatch remove_dispatch add_dispatch generic_dispatcher
applied_heap = elim (apply_dispatch generic_dispatcher this ready heap) [
  | ok h ↦ h
  | throw e ↦ heap
  | crash ↦ heap
  | blocked ↦ heap
]

applied_heap-ready : apply_dispatch generic_dispatcher this ready heap ≡ ok applied_heap
unfolding applied_heap apply_dispatch reapply_dispatch remove_dispatch add_dispatch
applied_heap-ready = refl

off_and_on_example :
    let off : Macro = record ready { interruptor = disable } in
    (h1 : Heap Dispatcher) × (h2 : Heap Dispatcher) × (set_enabled generic_dispatcher this false
        ready applied_heap
      ≡ ok (record { macro = off; heap = h1; resets = false }))
    × (set_enabled generic_dispatcher this true off h1
        ≡ ok (record { macro = ready; heap = h2; resets = false }))
    × ((d r : ℕ)
        → (registered r (h1.net d) ≡ (
            registered r (applied_heap.net d)
            && not (out_of generic_dispatcher this ready applied_heap d r)))
          × (registered r (h2.net d) ≡ registered r (applied_heap.net d)))
off_and_on_example =
    off_and_on generic_dispatcher this ready heap applied_heap (omega arith) (omega arith)
      ready-NotNull refl applied_heap-ready
