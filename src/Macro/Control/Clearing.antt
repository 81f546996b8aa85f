-- ===== src/Macro/Control/Clearing.antt =====
-- The end of a macro's threads, its destruction, and the assignment of one macro to another.
use libmacro.Prelude.{
  ℕ, suc, ◌≡◌, ◌≢◌, refl, Bool, true, false, not, ◌||◌, ◌&&◌, if◌then◌else◌, arith, Bool-cases, inl,
  inr,
}
use libmacro.Types.{Interrupt, continue, pause, interrupt, disable}
use libmacro.Error.{ok, throw, einval}
use libmacro.Dispatcher.Interface.{IDispatcher}
use libmacro.Macro.State.{Macro, running}
use libmacro.Macro.Dispatching.{Heap}
use libmacro.Macro.Dispatching.Removal.{NotNull, removed, remove_dispatch_lem}
use libmacro.Macro.Dispatching.Registration.{targets_of, generic_for}
use libmacro.Macro.Threads.{dequeue}
use libmacro.Macro.Control.{
  same_interrupt, sticky_rounds, clear_waiting, clear_threads, disable_everything,
}
use libmacro.Macro.Control.Interrupting.{Settles}

-- The macro once nothing of it runs.
abbrev pub cleared : Interrupt → Macro → Macro
cleared val m = record m { queued = 0; interruptor = val; thread_count = 0; threads = 0 }

-- The kinds of interrupt that `clearThreads` is meant for.
abbrev pub clears : Interrupt → Bool → Bool
clears val sticky =
    not (same_interrupt val continue || same_interrupt val pause)
    && not (sticky && same_interrupt val interrupt)

clear_waiting_lem :
    (wait : Macro → Macro) (rounds : ℕ) (val : Interrupt) (sticky : Bool) (m : Macro)
    → Settles wait
    → clear_waiting wait (suc rounds) val sticky (dequeue val m)
      ≡ ok (record m { queued = 0; interruptor = val; thread_count = 0 })
unfolding clear_waiting sticky_rounds dequeue
clear_waiting_lem wait rounds val false m settles = simp settles
clear_waiting_lem wait rounds val true m settles = elim (Bool-cases (running m)) [
  | inl busy ↦ simp (busy, settles)
  | inr idle ↦ let e : m.thread_count ≡ 0 = ground arith in ground arith
]

-- If the threads settle, `clearThreads` throws EINVAL for CONTINUE, PAUSE and a sticky INTERRUPT,
-- and for INTERRUPT_ALL and DISABLE returns after one round at most with no thread, no handle and an
-- empty queue. An INTERRUPT that is not sticky does not stay until the threads have ended.
pub clear_threads_lem :
    (wait : Macro → Macro) (rounds : ℕ) (val : Interrupt) (sticky : Bool) (m : Macro)
    → (same_interrupt val interrupt && not sticky) ≡ false
    → Settles wait
    → clear_threads wait (suc rounds) val sticky m
      ≡ (if clears val sticky then ok (cleared val m) else throw einval)
unfolding clear_threads
clear_threads_lem wait rounds val sticky m stays settles =
    rw (clear_waiting_lem wait rounds val sticky m settles) (ground arith)

module _ {D : Type 0} (i : IDispatcher D) where
  open i use {registered}

  -- If the threads settle, the destructor of a macro that, like its context and triggers, is not
  -- null returns with no thread, no handle and an empty queue, and takes out the registrations of
  -- the macro's set-up.
  pub disable_everything_lem :
      (wait : Macro → Macro) (rounds this : ℕ) (m : Macro) (h : Heap D)
      → Settles wait
      → m.context ≢ 0
      → this ≢ 0
      → NotNull m.triggers
      → (h' : Heap D) × (disable_everything wait i (suc rounds) this m h
          ≡ ok (cleared disable m, h'))
        × (h'.dispatcher_of ≡ h.dispatcher_of)
        × (h'.generic_of ≡ h.generic_of)
        × (h'.actor_of ≡ h.actor_of)
        × ((d r : ℕ)
            → registered r (h'.net d) ≡ (
                registered r (h.net d)
                && not (removed this m.triggers (targets_of i m h) (generic_for i m h) d r)))
  unfolding disable_everything
  disable_everything_lem wait rounds this m h settles ctx n ns =
      let off = record m { queued = 0; interruptor = disable } in
      let (h', e, to, generic, actor, reg) = remove_dispatch_lem i this off h ctx n ns in
      (
        h',
        unfold dequeue in rw (e, clear_threads_lem wait rounds disable true off refl settles),
        to,
        generic,
        actor,
        reg,
      )
