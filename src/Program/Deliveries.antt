-- ===== src/Program/Deliveries.antt =====
-- What a thread's signals do where they have dispatchers: a dispatcher is asked instead of the
-- signal, and never learns of the modifiers.
use libmacro.Prelude.{ℕ, Bool}
use libmacro.Dispatcher.{dispatch}
use libmacro.Trigger.{Trigger}
use libmacro.Signals.Modifier.{Modifier}
use libmacro.Signals.Modifier
use libmacro.Macro.Dispatching.{update}
use libmacro.Library.{Library, receive}
use libmacro.Program.{Program}

-- The program after the dispatcher of a signal has been asked
abbrev asked : Bool → ℕ → Program → Program
asked available a p =
    let l = p.library in
    record p {
      library = (dispatch (receive available) (l.heap.net (l.heap.dispatcher_of a)) a 0 l).1;
    }

-- The program after a `Modifier` signal has been sent
abbrev modified : ℕ → Modifier → Program → Program
modified context m p = record p {
  modifiers_of = update p.modifiers_of context (Modifier.send m (p.modifiers_of context));
}
