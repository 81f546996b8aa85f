-- ===== src/Macro/State.antt =====
-- The fields of `MacroImpl` and the two globals of src/macro.cpp.
use libmacro.Prelude.{ℕ, List, [], Bool, true, false, ◌==◌, not}
use libmacro.Types.{Interrupt, interrupt_value, disable}
use libmacro.Text.{Text}

-- Pointers are addresses, and 0 is null. `queued` is an `int` that the code only raises below
-- `thread_max` and lowers above 0. `threads` is the length of the vector of thread handles.
pub record Macro : Type 0 where
  pub blocking : Bool
  pub interruptor : Interrupt
  pub sticky : Bool
  pub apply_dispatch_flag : Bool
  pub thread_count : ℕ
  pub thread_max : ℕ
  pub queued : ℕ
  pub context : ℕ
  pub activators : List ℕ
  pub name : Text
  pub signals : List ℕ
  pub triggers : List ℕ
  pub threads : ℕ

-- `MacroImpl::MacroImpl(Libmacro *)`
abbrev pub new_macro : ℕ → Macro
new_macro context = record {
  blocking = false;
  interruptor = disable;
  sticky = false;
  apply_dispatch_flag = true;
  thread_count = 0;
  thread_max = 1;
  queued = 0;
  context = context;
  activators = [];
  name = [];
  signals = [];
  triggers = [];
  threads = 0;
}

-- `g_threadMax` and `g_activeThreadCount`
pub record Globals : Type 0 where
  pub thread_limit : ℕ
  pub active : ℕ

abbrev pub new_globals : Globals
new_globals = record { thread_limit = 0x10; active = 0 }

-- `globalActiveThreadCount`, which is declared to return a `bool`
unfoldable pub global_active_thread_count : Globals → Bool
global_active_thread_count g = not (g.active == 0)

-- `Libmacro::setGlobalThreadLimit`
unfoldable pub set_global_thread_limit : ℕ → Globals → Globals
set_global_thread_limit val g = record g { thread_limit = val }

abbrev pub running : Macro → Bool
running m = not (m.thread_count == 0)

abbrev pub is_disable : Interrupt → Bool
is_disable v = interrupt_value v == interrupt_value disable

-- `IMacro::enabled`
abbrev pub enabled : Macro → Bool
enabled m = not (is_disable m.interruptor)
