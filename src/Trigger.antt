-- ===== src/Trigger.antt =====
-- mcr/trigger.h, src/trigger/action.cpp and the functor wrappers: what a trigger does on a signal.
-- An actor's `act` is code behind a virtual call: a function on the state of the program.
pub mod Laws
use libmacro.Prelude.{
  ℕ, List, [], ◌∷◌, Option, none, some, Bool, true, false, ◌||◌, ◌==◌, if◌then◌else◌,
}
use libmacro.Types.{mode_value, equal_mode}
use libmacro.Flags.{trigger_mode_match}

-- The fields of `Trigger`; 0 is no actor.
pub record Trigger : Type 0 where
  pub actor : ℕ
  pub blocking_flag : Bool

abbrev pub new_trigger : Trigger
new_trigger = record { actor = 0; blocking_flag = false }

-- `Action`
pub record Action : Type 0 where
  pub base : Trigger
  pub open base use *
  pub modifiers : ℕ
  pub trigger_mode : ℕ

abbrev pub new_action : Action
new_action = record { base = new_trigger; modifiers = 0; trigger_mode = mode_value equal_mode }

module _ {ℓ} {S : Type ℓ} (act : ℕ → S → Bool × S) where
  -- `Trigger::trigger`: the result of the actor is dropped.
  unfoldable pub trigger : Trigger → ℕ → ℕ → S → Bool × S
  trigger t signal mods s =
      if t.actor == 0 then (t.blocking_flag, s) else (t.blocking_flag, (act t.actor s).1)

  -- `Action::receive`
  unfoldable pub action_receive : Action → ℕ → ℕ → S → Bool × S
  unfolding trigger
  action_receive a signal mods s =
      if trigger_mode_match a.trigger_mode a.modifiers mods
      then trigger a.base signal mods s
      else (false, s)

  -- `FunctorTrigger::receive`, with the wrapped function if there is one
  unfoldable pub functor_receive : Option (ℕ → ℕ → S → Bool × S) → Trigger → ℕ → ℕ → S → Bool × S
  unfolding trigger
  functor_receive none t signal mods s = trigger t signal mods s
  functor_receive (some fn) t signal mods s = fn signal mods s

-- `FunctorActor::act`
unfoldable pub functor_act {ℓ} : {S : Type ℓ} → Option (S → Bool × S) → S → Bool × S
functor_act none s = (false, s)
functor_act (some fn) s = fn s

-- `FunctorSignal::send`
unfoldable pub functor_send {ℓ} : {S : Type ℓ} → Option (S → S) → S → S
functor_send none s = s
functor_send (some fn) s = fn s

-- `TriggerList::receive`: every trigger receives, and what they return is dropped.
module _ {ℓ κ} {T : Type κ} {S : Type ℓ} (receive : T → ℕ → ℕ → S → Bool × S) where
  list_loop : List T → ℕ → ℕ → Bool → S → Bool × S
  list_loop [] signal mods block s = (block, s)
  list_loop (t ∷ ts) signal mods block s =
      let called = receive t signal mods s in list_loop ts signal mods (block || called.0) called.1

  unfoldable pub list_receive : List T → ℕ → ℕ → S → Bool × S
  unfolding list_loop
  list_receive ts signal mods s = let looped = list_loop ts signal mods false s in (true, looped.1)
