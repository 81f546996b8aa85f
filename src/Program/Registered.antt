-- ===== src/Program/Registered.antt =====
-- An `Interrupt` signal to a registry, which interrupts every macro that it names.
use libmacro.Text.{Text}
use libmacro.Signals.Interrupting
use libmacro.Macro.State.{Macro}
use libmacro.Program.{Program}
