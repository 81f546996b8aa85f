-- ===== src/Library.antt =====
-- The library put together: macros, triggers and dispatchers at their addresses, with the calls
-- between them that go through a virtual function. A macro has the generic dispatchers and those of
-- the signals to register with; what a dispatcher calls is a trigger of class `Action` or a macro.
pub mod Receiving
pub mod Triggering
pub mod Chaining
pub mod Starting
pub mod Keeping
use libmacro.Prelude.{ℕ, List, [], ◌∷◌, Option, none, some, Bool, true, false, ◌==◌, if◌then◌else◌}
use libmacro.Error.{Result, ok, ◌>>=◌}
use libmacro.Dispatcher.{Dispatcher, dispatch}
use libmacro.Dispatcher.Interface.{generic_dispatcher}
use libmacro.Trigger.{Trigger, Action, action_receive}
use libmacro.Macro.State.{Macro, Globals}
use libmacro.Macro.Dispatching.{Heap, update}
use libmacro.Macro.Threads.{act}
use libmacro.Macro.Control.{set_triggers}

pub record Library : Type 0 where
  pub heap : Heap Dispatcher
  pub macro_of : ℕ → Macro
  pub action_of : ℕ → Option Action
  pub globals : Globals

abbrev pub macro_set : ℕ → Macro → Library → Library
macro_set this m l = record l { macro_of = update l.macro_of this m }

-- `MacroImpl::act` and `MacroImpl::receive`, of the macro at an address
unfoldable pub act_macro : Bool → ℕ → Library → Bool × Library
unfolding act
act_macro available this l =
    let (started, blocks) = act available l.globals (l.macro_of this) in
    (blocks, record (macro_set this started.macro l) { globals = started.globals })

-- The action at an address, with the actor that stands in the heap
abbrev pub with_actor : ℕ → Action → Action
with_actor actor a = record a { base = record (a.base) { actor = actor } }

-- `IReceive::receive`, of the object at an address
unfoldable pub receive : Bool → ℕ → ℕ → ℕ → Library → Bool × Library
receive available receiver signal mods l = elim (l.action_of receiver) [
  | none ↦ act_macro available receiver l
  | some a ↦
      action_receive (act_macro available) (with_actor (l.heap.actor_of receiver) a) signal mods l
]

-- `dispatcherPtr->dispatch(signal, mods)` if the signal has a dispatcher
unfoldable pub dispatch_signal : Bool → ℕ → ℕ → Library → Bool × Library
dispatch_signal available signal mods l =
    if l.heap.dispatcher_of signal == 0
    then (false, l)
    else dispatch (receive available) (l.heap.net (l.heap.dispatcher_of signal)) signal mods l

-- `setTriggers` of the macro at an address
unfoldable pub set_macro_triggers : ℕ → List ℕ → Library → Result Library
set_macro_triggers this array l = do
  p ← set_triggers generic_dispatcher this array (l.macro_of this) l.heap
  ok (record (macro_set this (p.0) l) { heap = p.1 })
