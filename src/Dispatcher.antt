-- ===== src/Dispatcher.antt =====
-- mcr/dispatcher.h and src/dispatcher.cpp: the dispatcher that hands a signal to its receivers.
-- A pointer is its address, and 0 is the null pointer.
pub mod Interface
pub mod Receivers
pub mod Dispatch
pub mod Order
pub mod History
use libmacro.Prelude.{
  ℕ, zero, List, [], ◌∷◌, Bool, true, false, ◌==◌, if◌then◌else◌, has, without, length,
}

-- The fields of `Dispatcher`; the list stands for the unordered set, in the order of its walk.
pub record Dispatcher : Type 0 where
  pub context : ℕ
  pub receivers : List ℕ

abbrev pub new_dispatcher : ℕ → Dispatcher
new_dispatcher context = record { context = context; receivers = [] }

-- The copy constructor and the assignment take the context over, and not the receivers.
abbrev pub copy_dispatcher : Dispatcher → Dispatcher
copy_dispatcher other = new_dispatcher other.context

abbrev pub assign_dispatcher : Dispatcher → Dispatcher → Dispatcher
assign_dispatcher d other = record d { context = other.context }

-- `_receivers.insert`: the signal is not looked at.
unfoldable pub add : ℕ → ℕ → Dispatcher → Dispatcher
add signal receiver d = record d {
  receivers = if has receiver d.receivers then d.receivers else receiver ∷ d.receivers;
}

unfoldable pub clear : Dispatcher → Dispatcher
clear d = record d { receivers = [] }

unfoldable pub remove : ℕ → Dispatcher → Dispatcher
remove receiver d =
    if receiver == 0 then d else record d { receivers = without receiver d.receivers }

unfoldable pub size : Dispatcher → ℕ
size d = length d.receivers

unfoldable pub empty : Dispatcher → Bool
unfolding size
empty d = size d == 0

-- What a receiver does with a signal and modifiers is code behind a virtual call: a function on
-- the state of the program, which also says whether the receiver blocks.
module _ {ℓ} {S : Type ℓ} (receive : ℕ → ℕ → ℕ → S → Bool × S) where
  -- The loop of `Dispatcher::dispatch`
  pub dispatch_loop : List ℕ → ℕ → ℕ → S → Bool × S
  dispatch_loop [] signal mods s = (false, s)
  dispatch_loop (r ∷ rs) signal mods s =
      let called = receive r signal mods s in
      let go_on = dispatch_loop rs signal mods called.1 in
      let skip = dispatch_loop rs signal mods s in
      if r == 0 then skip else if called.0 then (true, called.1) else go_on

  unfoldable pub dispatch : Dispatcher → ℕ → ℕ → S → Bool × S
  unfolding dispatch_loop
  dispatch d signal mods s = dispatch_loop d.receivers signal mods s

  -- `IDispatcher::dispatchAndModify` for this class, whose `modifier` leaves the modifiers alone:
  -- whether the signal was blocked, the modifiers, and the state
  unfoldable pub dispatch_and_modify : Dispatcher → ℕ → ℕ → S → Bool × ℕ × S
  unfolding dispatch
  dispatch_and_modify d signal mods s =
      let (blocked, s') = dispatch d signal mods s in
      if blocked then (true, mods, s') else (false, mods, s')
