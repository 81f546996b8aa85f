-- ===== src/Program.antt =====
-- The library with the signals that it sends: the objects of the signal classes at their addresses,
-- the modifiers of the contexts and the registries of macros, and a thread of a macro among them.
pub mod Interrupts
pub mod Deliveries
pub mod InTurn
pub mod Registered
use libmacro.Prelude.{
  ℕ, List, [], ◌∷◌, ◌++◌, Option, none, some, Bool, true, false, ◌==◌, if◌then◌else◌,
}
use libmacro.Prelude.Int.{ℤ}
use libmacro.Types.{Interrupt, interrupt_value}
use libmacro.Error.{Result, ok, throw, crash, blocked, ◌>>=◌}
use libmacro.Dispatcher.{dispatch}
use libmacro.Dispatcher.Interface.{generic_dispatcher}
use libmacro.Signals.Modifier.{Modifier}
use libmacro.Signals.NoOp.{NoOp}
use libmacro.Signals.Interrupting.{InterruptSignal}
use libmacro.Signals.Modifier
use libmacro.Signals.NoOp
use libmacro.Signals.Interrupting
use libmacro.Registry.Macros.{Table, interrupt_macros}
use libmacro.Macro.State.{Macro}
use libmacro.Macro.Dispatching.{update}
use libmacro.Macro.Control.{set_interruptor}
use libmacro.Macro.Run.{Scene, Environment}
use libmacro.Library.{Library, macro_set, receive}

-- An object of one of the library's signal classes; a `Modifier` stands with the address of its
-- context.
pub data SignalObject : Type 0 where
  interrupts : InterruptSignal → SignalObject
  modifies : ℕ → Modifier → SignalObject
  waits : NoOp → SignalObject

-- What may be interrupted at an address is a registry of macros, or a macro. `resets` has the macros
-- for which a thread that runs `resetThread` was detached, the last first, and `slept` the waits in
-- their order.
pub record Program : Type 0 where
  pub library : Library
  pub signal_of : ℕ → SignalObject
  pub registry_of : ℕ → Option Table
  pub modifiers_of : ℕ → ℕ
  pub resets : List ℕ
  pub slept : List ℤ

-- `IMacro::interrupt` of the macro at an address
unfoldable pub interrupt_macro : Interrupt → ℕ → Program → Result Program
interrupt_macro v target p = do
  r ←
      set_interruptor generic_dispatcher target (interrupt_value v) (p.library.macro_of target)
        p.library.heap
  ok (record p {
    library = record (macro_set target r.macro p.library) { heap = r.heap };
    resets = if r.resets then target ∷ p.resets else p.resets;
  })

-- `target->interrupt(value)`
unfoldable pub interrupt_target : ℕ → Interrupt → Program → Result Program
interrupt_target target v p = elim (p.registry_of target) [
  | none ↦ interrupt_macro v target p
  | some t ↦ interrupt_macros (interrupt_macro v) t p
]

-- `send` of the signal object
unfoldable pub send_object : SignalObject → Program → Result Program
unfolding interrupt_target
send_object (interrupts i) p = Interrupting.send interrupt_target i p
send_object (modifies context m) p =
    if context == 0
    then crash
    else ok (record p {
      modifiers_of = update p.modifiers_of context (Modifier.send m (p.modifiers_of context));
    })
send_object (waits n) p = ok (record p { slept = p.slept ++ NoOp.send n })

-- What the thread of the macro at an address sees of the program, and the program that it sees
abbrev pub seen_in : ℕ → Program → Scene Program
seen_in this p = record { macro = p.library.macro_of this; globals = p.library.globals; world = p }

abbrev pub program_of : ℕ → Scene Program → Program
program_of this r = record r.world {
  library = record (macro_set this r.macro r.world.library) { globals = r.globals };
}

-- What has been sent, and whether sending it threw
abbrev pub outcome : ℕ → Scene Program → Result Program → Bool × Scene Program
outcome this r (ok p) = (false, seen_in this p)
outcome this r (throw e) = (true, r)
outcome this r crash = (true, r)
outcome this r blocked = (true, r)

-- The deliveries of `dispatchSignals` in a program: `dispatcher->dispatch(signalPtr, 0)`, or
-- `signalPtr->send()`. The end of a wait is what the other threads do. A null pointer is put as an
-- exception here.
unfoldable pub program_environment :
    Bool → ℕ → (Scene Program → Scene Program) → Environment Program
unfolding send_object
program_environment available this resumed = record {
  dispatcher_of = λ a r. r.world.library.heap.dispatcher_of a;
  dispatch = λ d a r.
      let p = program_of this r in
      (
        false,
        seen_in this (record p {
          library = (dispatch (receive available) (p.library.heap.net d) a 0 p.library).1;
        }),
      );
  send = λ a r. let p = program_of this r in outcome this r (send_object (p.signal_of a) p);
  resumed = resumed;
}
