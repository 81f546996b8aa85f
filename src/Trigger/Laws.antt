-- ===== src/Trigger/Laws.antt =====
-- When a trigger acts, and what it tells the dispatcher.
use libmacro.Prelude.{
  ℕ, ◌≡◌, ◌≢◌, ◌⊎◌, inl, inr, refl, List, [], ◌∷◌, Bool, true, false, arith, Bool-cases,
}
use libmacro.Types.{TriggerMode, mode_value}
use libmacro.Word.{IsWord}
use libmacro.Flags.{trigger_mode_match}
use libmacro.Flags.Matching.{Matches, trigger_mode_match-Matches}
use libmacro.Trigger.{Trigger, Action, action_receive, list_loop, list_receive}

abbrev pub action_of : Trigger → ℕ → TriggerMode → Action
action_of t m mode = record { base = t; modifiers = m; trigger_mode = mode_value mode }

-- On words, an action with an actor either matches, its actor acts, and it blocks as its flag says,
-- or it does not match, nothing happens and it does not block.
pub action_receive_cases {ℓ} :
    {S : Type ℓ} (act : ℕ → S → Bool × S) (t : Trigger) (m : ℕ) (mode : TriggerMode)
    (signal mods : ℕ) (s : S)
    → t.actor ≢ 0
    → IsWord m
    → IsWord mods
    → (Matches mode m mods
        × (action_receive act (action_of t m mode) signal mods s
            ≡ (t.blocking_flag, (act t.actor s).1)))
      ⊎ ((¬ Matches mode m mods)
          × (action_receive act (action_of t m mode) signal mods s ≡ (false, s)))
unfolding action_receive
action_receive_cases act t m mode signal mods s has_actor wm w =
    let decides = trigger_mode_match-Matches mode m mods wm w in
    elim (Bool-cases (trigger_mode_match (mode_value mode) m mods)) [
      | inl matches ↦ inl (decides.0 matches, rw matches (ground arith))
      | inr fails ↦ inr (λ h. let e = decides.1 h in cc (e, fails), rw fails)
    ]

-- The state after each trigger of a list has received the signal in turn.
abbrev pub receive_all {ℓ κ} :
    {T : Type κ} {S : Type ℓ} → (T → ℕ → ℕ → S → Bool × S) → List T → ℕ → ℕ → S → S
receive_all receive [] signal mods s = s
receive_all receive (t ∷ ts) signal mods s =
    receive_all receive ts signal mods (receive t signal mods s).1

list_loop-receive_all {ℓ κ} :
    {T : Type κ} {S : Type ℓ} (receive : T → ℕ → ℕ → S → Bool × S) (ts : List T) (signal mods : ℕ)
    (block : Bool) (s : S)
    → (list_loop receive ts signal mods block s).1 ≡ receive_all receive ts signal mods s
unfolding list_loop
list_loop-receive_all receive [] signal mods block s = refl
list_loop-receive_all receive (t ∷ ts) signal mods block s =
    list_loop-receive_all receive ts signal mods _ (receive t signal mods s).1

-- A list of triggers hands the signal to every trigger in order, whatever each returns, and always
-- blocks, the empty list too.
pub list_receive-receive_all {ℓ κ} :
    {T : Type κ} {S : Type ℓ} (receive : T → ℕ → ℕ → S → Bool × S) (ts : List T) (signal mods : ℕ)
    (s : S)
    → list_receive receive ts signal mods s ≡ (true, receive_all receive ts signal mods s)
unfolding list_receive
list_receive-receive_all receive ts signal mods s =
    λ i. (true, list_loop-receive_all receive ts signal mods false s i)
