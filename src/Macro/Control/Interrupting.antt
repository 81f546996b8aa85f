-- ===== src/Macro/Control/Interrupting.antt =====
-- The interruptor of a macro as a state machine.
use libmacro.Prelude.{
  ℕ, ◌<◌, ◌≡◌, ◌≢◌, refl, true, false, not, ◌||◌, ◌&&◌, if◌then◌else◌, arith, Bool-cases, inl, inr,
  none, some,
}
use libmacro.Types.{Interrupt, interrupt_value, continue, pause, interrupt, interrupt_all, disable}
use libmacro.Error.{Result, ok, throw, einval}
use libmacro.Dispatcher.Interface.{IDispatcher}
use libmacro.Macro.State.{Macro, running, is_disable}
use libmacro.Macro.Dispatching.{Heap, apply_dispatch}
use libmacro.Macro.Dispatching.Removal.{NotNull}
use libmacro.Macro.Dispatching.Registration.{apply_dispatch_lem}
use libmacro.Macro.Threads.{dequeue}
use libmacro.Macro.Control.{
  interrupt_at, interrupt_locked, change_interruptor, set_interruptor, same_interrupt,
  clear_threads, reset_thread,
}

-- The macro after an interrupt. INTERRUPT_ALL empties the queue and, if no thread runs, is over at
-- once.
abbrev pub interrupted : Interrupt → Macro → Macro
interrupted v m = record m {
  queued = if same_interrupt v interrupt_all then 0 else m.queued;
  interruptor = if same_interrupt v interrupt_all && not (running m) then continue else v;
}

interrupt_locked_lem :
    (v : Interrupt) (m : Macro)
    → interrupt_locked v m ≡ (same_interrupt v interrupt_all && running m, interrupted v m)
unfolding interrupt_locked
interrupt_locked_lem continue m = refl
interrupt_locked_lem pause m = refl
interrupt_locked_lem interrupt m = refl
interrupt_locked_lem interrupt_all m = ground arith
interrupt_locked_lem disable m = refl

interrupt_at_value : (v : Interrupt) → interrupt_at (interrupt_value v) ≡ some v
unfolding interrupt_at
interrupt_at_value continue = refl
interrupt_at_value pause = refl
interrupt_at_value interrupt = refl
interrupt_at_value interrupt_all = refl
interrupt_at_value disable = refl

interrupt_at-none : (val : ℕ) → 4 < val → interrupt_at val ≡ none
unfolding interrupt_at
interrupt_at-none val h = ground arith

-- The threads end, and change nothing else of the macro.
abbrev pub Settles : (Macro → Macro) → Type 0
Settles wait = (m : Macro) → wait m ≡ record m { thread_count = 0 }

-- The macro once its threads have ended in `resetThread`
abbrev emptied : Macro → Macro
emptied m = record m {
  queued = 0;
  interruptor = interrupt_all;
  thread_count = 0;
  threads = if running m then 0 else m.threads;
}

clear_threads-emptied :
    (wait : Macro → Macro) (rounds : ℕ) (m : Macro)
    → Settles wait
    → (if running m
        then clear_threads wait rounds interrupt_all false (dequeue interrupt_all m)
        else ok (dequeue interrupt_all m))
      ≡ ok (emptied m)
unfolding clear_threads dequeue
clear_threads-emptied wait rounds m settles = elim (Bool-cases (running m)) [
  | inl busy ↦ simp (busy, settles)
  | inr idle ↦ let e : m.thread_count ≡ 0 = ground arith in ground arith
]

module _ {D : Type 0} (i : IDispatcher D) where
  open i use {registered}

  -- The dispatch is applied anew if the macro was disabled or is to be.
  abbrev pub reapplied : ℕ → Interrupt → Macro → Heap D → Result (Heap D)
  reapplied this v m h =
      if is_disable m.interruptor || is_disable v
      then apply_dispatch i this (interrupted v m) h
      else ok h

  set_interruptor_lem :
      (this : ℕ) (v : Interrupt) (m : Macro) (h h' : Heap D)
      → same_interrupt v m.interruptor ≡ false
      → reapplied this v m h ≡ ok h'
      → set_interruptor i this (interrupt_value v) m h
        ≡ ok (record {
          macro = interrupted v m;
          heap = h';
          resets = same_interrupt v interrupt_all && running m;
        })
  unfolding set_interruptor change_interruptor
  set_interruptor_lem this v m h h' new e =
      rw (set_interruptor, interrupt_at_value v, new, interrupt_locked_lem v m, e)

  reapplied_total :
      (this : ℕ) (v : Interrupt) (m : Macro) (h : Heap D)
      → m.context ≢ 0
      → this ≢ 0
      → NotNull m.triggers
      → (h' : Heap D) × (reapplied this v m h ≡ ok h')
  reapplied_total this v m h ctx n ns =
      let applies = apply_dispatch_lem i this (interrupted v m) h ctx n ns in
      elim (Bool-cases (is_disable m.interruptor || is_disable v)) [
        | inl again ↦ (applies.0, rw again applies.1)
        | inr not_again ↦ (h, rw not_again)
      ]

  -- Where the context, the macro and its triggers are not null, a change of the interruptor to
  -- another value succeeds; INTERRUPT_ALL alone empties the queue, ends at once if no thread
  -- runs, and otherwise detaches a thread that resets the macro; the dispatch is applied exactly
  -- if the macro was disabled or is to be.
  pub set_interruptor_total :
      (this : ℕ) (v : Interrupt) (m : Macro) (h : Heap D)
      → m.context ≢ 0
      → this ≢ 0
      → NotNull m.triggers
      → same_interrupt v m.interruptor ≡ false
      → (h' : Heap D) × (reapplied this v m h ≡ ok h')
        × (set_interruptor i this (interrupt_value v) m h
            ≡ ok (record {
              macro = interrupted v m;
              heap = h';
              resets = same_interrupt v interrupt_all && running m;
            }))
  set_interruptor_total this v m h ctx n ns new =
      let (h', e) = reapplied_total this v m h ctx n ns in
      (h', e, set_interruptor_lem this v m h h' new e)

  -- A value beyond the enumeration is refused.
  pub set_interruptor_refused :
      (this val : ℕ) (m : Macro) (h : Heap D)
      → 4 < val
      → set_interruptor i this val m h ≡ throw einval
  unfolding set_interruptor
  set_interruptor_refused this val m h big = rw (set_interruptor, interrupt_at-none val big)

  -- If the threads settle, the thread that resets a macro empties the queue, ends the threads and
  -- lets the macro continue, except that a macro that was disabled before ends up in
  -- INTERRUPT_ALL.
  pub reset_thread_lem :
      (wait : Macro → Macro) (rounds this : ℕ) (m : Macro) (h : Heap D)
      → Settles wait
      → reset_thread wait i rounds this m h
        ≡ ok (
          record m {
            queued = 0;
            interruptor = if is_disable m.interruptor then interrupt_all else continue;
            thread_count = 0;
            threads = if running m then 0 else m.threads;
          },
          h,
        )
  unfolding reset_thread
  reset_thread_lem wait rounds this m h settles = elim (Bool-cases (is_disable m.interruptor)) [
    | inl off ↦ rw (clear_threads-emptied wait rounds m settles) (simp off)
    | inr on ↦
        rw
          (
            clear_threads-emptied wait rounds m settles,
            set_interruptor_lem this continue (emptied m) h h refl refl,
          )
          (simp on)
  ]

  -- A change to the value that the macro has changes nothing.
  pub set_interruptor_same :
      (this : ℕ) (v : Interrupt) (m : Macro) (h : Heap D)
      → same_interrupt v m.interruptor ≡ true
      → set_interruptor i this (interrupt_value v) m h
        ≡ ok (record { macro = m; heap = h; resets = false })
  unfolding set_interruptor
  set_interruptor_same this v m h same = rw (set_interruptor, interrupt_at_value v, same) refl
