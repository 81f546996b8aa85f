-- ===== src/Macro/Control.antt =====
-- src/macro.cpp: the calls that change the set-up of a macro or interrupt it. `this` is the address
-- of the macro. A lock that is held over a whole call is not in the model.
pub mod Setters
pub mod Interrupting
pub mod Clearing
pub mod Limits
pub mod Switching
use libmacro.Prelude.{
  ℕ, suc, zero, ◌+◌, ◌-◌, List, [], ◌∷◌, Option, none, some, Bool, true, false, not, ◌==◌, ◌||◌,
  ◌&&◌, ltb, leb, if◌then◌else◌,
}
use libmacro.Types.{Interrupt, interrupt_value, continue, pause, interrupt, interrupt_all, disable}
use libmacro.Text.{Text}
use libmacro.Error.{Result, ok, throw, crash, blocked, einval, efault, ebusy, ◌>>=◌}
use libmacro.Dispatcher.Interface.{IDispatcher}
use libmacro.Macro.State.{Macro, Globals, running, is_disable}
use libmacro.Macro.Dispatching.{Heap, update, remove_dispatch, apply_dispatch}
use libmacro.Macro.Threads.{limit_max_threads, dequeue, handle_interrupt_all}

unfoldable pub set_context : ℕ → Macro → Macro
set_context ctx m = record m { context = ctx }

unfoldable pub set_blocking : Bool → Macro → Macro
set_blocking val m = record m { blocking = val }

unfoldable pub set_sticky : Bool → Macro → Macro
set_sticky val m = record m { sticky = val }

unfoldable pub set_apply_dispatch_enabled : Bool → Macro → Macro
set_apply_dispatch_enabled val m = record m { apply_dispatch_flag = val }

unfoldable pub set_name : Option Text → Macro → Result Macro
set_name none m = throw efault
set_name (some val) m = ok (record m { name = val })

unfoldable pub set_thread_max : ℕ → Globals → Macro → Result Macro
set_thread_max val g m =
    if val == 0 || ltb g.thread_limit val
    then throw einval
    else if val == m.thread_max
    then ok m
    else ok (limit_max_threads g.thread_limit (record m { thread_max = val }))

unfoldable pub set_signals : List ℕ → Macro → Result Macro
set_signals array m =
    if ltb 0 m.thread_count then throw ebusy else ok (record m { signals = array })

-- `trig->actorPtr = this` for each trigger that is not null
unfoldable pub fixup_trigger_actors : ℕ → List ℕ → (ℕ → ℕ) → ℕ → ℕ
fixup_trigger_actors this [] actor_of = actor_of
fixup_trigger_actors this (t ∷ ts) actor_of =
    fixup_trigger_actors this ts (if t == 0 then actor_of else update actor_of t this)

-- The value of the enumeration that a number stands for
unfoldable pub interrupt_at : ℕ → Option Interrupt
interrupt_at val =
    if val == interrupt_value continue
    then some continue
    else if val == interrupt_value pause
    then some pause
    else if val == interrupt_value interrupt
    then some interrupt
    else if val == interrupt_value interrupt_all
    then some interrupt_all
    else if val == interrupt_value disable
    then some disable
    else none

abbrev pub same_interrupt : Interrupt → Interrupt → Bool
same_interrupt a b = interrupt_value a == interrupt_value b

-- What `setInterruptor` does under the lock; the result says whether a thread is to be made that
-- resets the macro.
unfoldable pub interrupt_locked : Interrupt → Macro → Bool × Macro
unfolding handle_interrupt_all
interrupt_locked val m =
    let m' = record m { interruptor = val } in
    if same_interrupt val interrupt_all then handle_interrupt_all m' else (false, m')

-- A macro, what it can reach, and whether a thread that runs `resetThread` was detached.
pub record Interrupted (D : Type 0) : Type 0 where
  pub macro : Macro
  pub heap : Heap D
  pub resets : Bool

module _ {D : Type 0} (i : IDispatcher D) where
  unfoldable pub change_interruptor : ℕ → Interrupt → Macro → Heap D → Result (Interrupted D)
  change_interruptor this val m h = do
    let locked = interrupt_locked val m
    h' ←
        (if is_disable m.interruptor || is_disable val
          then apply_dispatch i this locked.1 h
          else ok h)
    ok (record { macro = locked.1; heap = h'; resets = locked.0 })

  -- `setInterruptor`
  unfoldable pub set_interruptor : ℕ → ℕ → Macro → Heap D → Result (Interrupted D)
  set_interruptor this val m h = elim (interrupt_at val) [
    | none ↦ throw einval
    | some v ↦
        if same_interrupt v m.interruptor
        then ok (record { macro = m; heap = h; resets = false })
        else change_interruptor this v m h
  ]

  -- `IMacro::setEnabled`
  unfoldable pub set_enabled : ℕ → Bool → Macro → Heap D → Result (Interrupted D)
  unfolding set_interruptor
  set_enabled this val m h =
      set_interruptor this (interrupt_value (if val then continue else disable)) m h

  unfoldable pub set_activators : ℕ → List ℕ → Macro → Heap D → Result (Macro × Heap D)
  set_activators this array m h = do
    h1 ← remove_dispatch i this m h
    let m' = record m { activators = array }
    h2 ← apply_dispatch i this m' h1
    ok (m', h2)

  unfoldable pub set_triggers : ℕ → List ℕ → Macro → Heap D → Result (Macro × Heap D)
  unfolding fixup_trigger_actors
  set_triggers this array m h = do
    h1 ← remove_dispatch i this m h
    let m' = record m { triggers = array }
    h2 ←
        apply_dispatch i this m'
          (record h1 { actor_of = fixup_trigger_actors this array h1.actor_of })
    ok (m', h2)

  -- `IMacro::clearAll`
  unfoldable pub clear_all : ℕ → Macro → Heap D → Result (Macro × Heap D)
  clear_all this m h = do
    cleared ← set_activators this [] m h
    silent ← set_signals [] cleared.0
    set_triggers this [] silent cleared.1

-- `waitThreadsChanged` returns once no thread runs: `wait` is the macro as the other threads have
-- left it by then.
module _ (wait : Macro → Macro) where
  -- The `do` loop of `clearThreadsSticky`. The status is never a time-out, so the branch behind
  -- the loop is not taken.
  sticky_rounds : ℕ → Interrupt → Macro → Result Macro
  sticky_rounds zero val m = blocked
  sticky_rounds (suc rounds) val m =
      let waited = wait (dequeue val m) in
      let again = sticky_rounds rounds val waited in if running waited then again else ok waited

  clear_waiting : ℕ → Interrupt → Bool → Macro → Result Macro
  unfolding sticky_rounds
  clear_waiting rounds val true m = if running m then sticky_rounds rounds val m else ok m
  clear_waiting rounds val false m = ok (wait m)

  -- `clearThreads`, and `joinAllThreads` at its end
  unfoldable pub clear_threads : ℕ → Interrupt → Bool → Macro → Result Macro
  unfolding clear_waiting dequeue
  clear_threads rounds val sticky m =
      if same_interrupt val continue || same_interrupt val pause
      then throw einval
      else if sticky && same_interrupt val interrupt
      then throw einval
      else do
        cleared ← clear_waiting rounds val sticky (dequeue val m)
        ok (record cleared { threads = 0 })

  module _ {D : Type 0} (i : IDispatcher D) where
    -- `disableEverything`, which is all that the destructor does
    unfoldable pub disable_everything : ℕ → ℕ → Macro → Heap D → Result (Macro × Heap D)
    unfolding clear_threads
    disable_everything rounds this m h = do
      let m' = dequeue disable m
      h' ← remove_dispatch i this m' h
      cleared ← clear_threads rounds disable true m'
      ok (cleared, h')

    -- `resetThread`
    unfoldable pub reset_thread : ℕ → ℕ → Macro → Heap D → Result (Macro × Heap D)
    unfolding clear_threads
    reset_thread rounds this m h = do
      let m' = dequeue interrupt_all m
      cleared ← (if running m' then clear_threads rounds interrupt_all false m' else ok m')
      if is_disable m.interruptor then ok (cleared, h) else do
        r ← set_interruptor i this (interrupt_value continue) cleared h
        ok (r.macro, r.heap)
