-- ===== src/Signals/Interrupting.antt =====
-- mcr/signal/interrupt.h: the signal that interrupts an object. What `interrupt` does to the object
-- at an address is code behind a virtual call: a function on the state of the program.
use libmacro.Prelude.{ℕ, ◌==◌, if◌then◌else◌}
use libmacro.Types.{Interrupt, interrupt_all}
use libmacro.Text.{Text, text}
use libmacro.Error.{Result, ok}

-- The fields of `Interrupt`; 0 is no target.
pub record InterruptSignal : Type 0 where
  pub target : ℕ
  pub target_name : Text
  pub value : Interrupt

abbrev pub new_interrupt : InterruptSignal
new_interrupt = record { target = 0; target_name = text "All"; value = interrupt_all }

-- `Interrupt::send`
unfoldable pub send {ℓ} :
    {S : Type ℓ} → (ℕ → Interrupt → S → Result S) → InterruptSignal → S → Result S
send interrupt_target signal s =
    if signal.target == 0 then ok s else interrupt_target signal.target signal.value s
