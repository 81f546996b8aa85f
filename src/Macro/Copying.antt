-- ===== src/Macro/Copying.antt =====
-- src/macro.cpp: the copies of a macro, over one that exists and in a new one.
pub mod Assignment
use libmacro.Prelude.{ℕ, ◌==◌, if◌then◌else◌}
use libmacro.Error.{Result, ok, ◌>>=◌}
use libmacro.Dispatcher.Interface.{IDispatcher}
use libmacro.Macro.State.{Macro, Globals, new_macro}
use libmacro.Macro.Dispatching.{Heap, apply_dispatch}
use libmacro.Macro.Threads.{limit_max_threads}
use libmacro.Macro.Control.{fixup_trigger_actors, disable_everything}

-- The fields of another macro that `copy` assigns
abbrev pub assigned : Macro → Macro → Macro
assigned other m = record m {
  activators = other.activators;
  name = other.name;
  signals = other.signals;
  triggers = other.triggers;
  blocking = other.blocking;
  interruptor = other.interruptor;
  sticky = other.sticky;
  thread_max = other.thread_max;
  context = other.context;
  apply_dispatch_flag = other.apply_dispatch_flag;
}

module _ (wait : Macro → Macro) {D : Type 0} (i : IDispatcher D) where
  -- What `copy` does once the macro, which is `m` by then, has been disabled
  unfoldable pub take_over : ℕ → Macro → Globals → Macro → Heap D → Result (Macro × Heap D)
  unfolding fixup_trigger_actors
  take_over this other g m h = do
    let limited = limit_max_threads g.thread_limit (assigned other m)
    h' ←
        apply_dispatch i this limited
          (record h { actor_of = fixup_trigger_actors this other.triggers h.actor_of })
    ok (limited, h')

  -- `copy(const MacroImpl &)` of another macro
  unfoldable pub copy : ℕ → ℕ → Macro → Globals → Macro → Heap D → Result (Macro × Heap D)
  unfolding disable_everything take_over
  copy rounds this other g m h = do
    disabled ← disable_everything wait i rounds this m h
    take_over this other g disabled.0 disabled.1

  -- `copy(const MacroImpl &)` of the macro at an address, which may be this one
  unfoldable pub copy_at : ℕ → ℕ → ℕ → (ℕ → Macro) → Globals → Heap D → Result (Macro × Heap D)
  unfolding disable_everything take_over copy
  copy_at rounds this other macro_of g h =
      if other == this
      then (do
        disabled ← disable_everything wait i rounds this (macro_of this) h
        take_over this disabled.0 g disabled.0 disabled.1)
      else copy rounds this (macro_of other) g (macro_of this) h

  -- `copy(const IMacro &)`
  unfoldable pub copy_interface :
      ℕ → ℕ → ℕ → (ℕ → Macro) → Globals → Heap D → Result (Macro × Heap D)
  unfolding copy_at
  copy_interface rounds this other macro_of g h =
      if other == this then ok (macro_of this, h) else copy_at rounds this other macro_of g h

  -- The copy constructor
  unfoldable pub copy_macro : ℕ → ℕ → Macro → Globals → Heap D → Result (Macro × Heap D)
  unfolding copy
  copy_macro rounds this other g h = copy rounds this other g (new_macro other.context) h
