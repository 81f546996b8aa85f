-- ===== src/Context/Parts.antt =====
-- src/libmacro.cpp and mcr/factory.h: a context with the objects that it owns, and the functions that
-- make them. The functions for unique and for shared pointers make the same objects.
use libmacro.Prelude.{ℕ, [], Bool}
use libmacro.Context.{Context, new_context}
use libmacro.Serial.Impl.{Serial}
use libmacro.Serial.Impl
use libmacro.Registry.Macros
use libmacro.Registry.Signals
use libmacro.Registry.Triggers
use libmacro.Dispatcher.{Dispatcher, new_dispatcher}
use libmacro.Macro.State.{Macro, new_macro}

-- `LibmacroImpl`, on stores of signals and of triggers
pub record LibmacroImpl (W V : Type 0) : Type 0 where
  pub fields : Context
  pub serial : Serial
  pub macro_registry : Macros.Table
  pub signal_registry : Signals.Table W
  pub trigger_registry : Triggers.Table V
  pub generic_dispatcher_instance : Dispatcher

abbrev pub create_macro_registry : Macros.Table
create_macro_registry = []

abbrev pub create_signal_registry : (W : Type 0) → Signals.Table W
create_signal_registry W = []

abbrev pub create_trigger_registry : (V : Type 0) → Triggers.Table V
create_trigger_registry V = []

abbrev pub create_generic_dispatcher : ℕ → Dispatcher
create_generic_dispatcher context = new_dispatcher context

abbrev pub create_macro : ℕ → Macro
create_macro context = new_macro context

module _ (W V : Type 0) where
  -- `createContext`, with the addresses of the context and of its dispatcher
  unfoldable pub create_context : Bool → ℕ → ℕ → LibmacroImpl W V
  unfolding new_context
  create_context enabled this own = record {
    fields = new_context enabled own;
    serial = Impl.create_serial;
    macro_registry = create_macro_registry;
    signal_registry = create_signal_registry W;
    trigger_registry = create_trigger_registry V;
    generic_dispatcher_instance = create_generic_dispatcher this;
  }
