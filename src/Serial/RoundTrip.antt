-- ===== src/Serial/RoundTrip.antt =====
-- A name that the serializer prints for a value is read back as the value, in any case.
use libmacro.Prelude.{
  ℕ, ◌≡◌, refl, Option, none, some, true, ◌==◌, ◌||◌, if◌then◌else◌, Bool-cases, inl, inr,
}
use libmacro.Types.{apply_value, set, unset, flag_value, any_flag}
use libmacro.Text.{Text, IsText, text, ci_equal, same_ci}
use libmacro.Assoc.{lookup}
use libmacro.Serial.Tables.{
  invalid, name_value, apply_cases, dimension_cases, modifiers_cases, trigger_mode_cases,
  interrupt_cases, apply_names, dimension_names, modifier_names, modifier_aliases,
  trigger_mode_names, interrupt_names,
}
use libmacro.Serial.Impl.{
  Serial, nat_eq, apply_of, apply_name, key_press, key_press_name, dimension_of, dimension_name,
  builtin_modifiers, modifiers, modifiers_name, trigger_mode, trigger_mode_name, interrupt_of,
  interrupt_name,
}
use libmacro.Serial.IgnoresCase.{agrees, IgnoresCase, name_value-lower, switch_agrees, round_trip}

-- For every apply value that has a name, each C string that equals the name up to case reads back
-- as the value.
pub apply_of-apply_name :
    (v : ℕ) (s t : Text)
    → apply_name v ≡ some s
    → IsText t
    → ci_equal (some s) (some t) ≡ true
    → apply_of (some t) ≡ v
unfolding apply_name apply_of
apply_of-apply_name v s t =
    round_trip (λ n. apply_of (some n)) apply_cases v s t
      (λ a b. name_value-lower apply_names a b invalid) (unfold agrees name_value ci_equal in refl)

-- For every dimension that has a name, each C string that equals the name up to case reads back as
-- the dimension.
pub dimension_of-dimension_name :
    (v : ℕ) (s t : Text)
    → dimension_name v ≡ some s
    → IsText t
    → ci_equal (some s) (some t) ≡ true
    → dimension_of (some t) ≡ v
unfolding dimension_name dimension_of
dimension_of-dimension_name v s t =
    round_trip (λ n. dimension_of (some n)) dimension_cases v s t
      (λ a b. name_value-lower dimension_names a b invalid)
      (unfold agrees name_value ci_equal in refl)

-- For every interrupt value that has a name, each C string that equals the name up to case reads
-- back as the value.
pub interrupt_of-interrupt_name :
    (v : ℕ) (s t : Text)
    → interrupt_name v ≡ some s
    → IsText t
    → ci_equal (some s) (some t) ≡ true
    → interrupt_of (some t) ≡ v
unfolding interrupt_name interrupt_of
interrupt_of-interrupt_name v s t =
    round_trip (λ n. interrupt_of (some n)) interrupt_cases v s t
      (λ a b. name_value-lower interrupt_names a b invalid)
      (unfold agrees name_value ci_equal in refl)

builtin_modifiers-IgnoresCase : IgnoresCase builtin_modifiers
unfolding builtin_modifiers
builtin_modifiers-IgnoresCase a b h = rw (
  name_value-lower modifier_names a b (flag_value any_flag) h,
  name_value-lower modifier_aliases a b (flag_value any_flag) h,
)

-- Where no extension names the value or the string, each C string that equals the built-in name of
-- some modifiers up to case reads back as the modifiers.
pub modifiers-modifiers_name :
    (x : Serial) (v : ℕ) (s t : Text)
    → lookup nat_eq v x.modifier_value_ext ≡ none
    → lookup same_ci t x.modifier_name_ext ≡ none
    → modifiers_name x v ≡ some s
    → IsText t
    → ci_equal (some s) (some t) ≡ true
    → modifiers x (some t) ≡ v
unfolding modifiers modifiers_name
modifiers-modifiers_name x v s t no_value no_name e w same =
    rw (no_name, modifiers)
      (round_trip builtin_modifiers modifiers_cases v s t builtin_modifiers-IgnoresCase
        (unfold agrees builtin_modifiers name_value ci_equal in refl)
        (rw (no_value, modifiers_name) at e) w same)

-- Where no extension names the value or the string, each C string that equals the built-in name of
-- a trigger mode up to case reads back as the mode.
pub trigger_mode-trigger_mode_name :
    (x : Serial) (v : ℕ) (s t : Text)
    → lookup nat_eq v x.trigger_mode_value_ext ≡ none
    → lookup same_ci t x.trigger_mode_name_ext ≡ none
    → trigger_mode_name x v ≡ some s
    → IsText t
    → ci_equal (some s) (some t) ≡ true
    → trigger_mode x (some t) ≡ v
unfolding trigger_mode trigger_mode_name
trigger_mode-trigger_mode_name x v s t no_value no_name e w same =
    rw (no_name, trigger_mode)
      (round_trip (λ n. name_value trigger_mode_names (some n) invalid) trigger_mode_cases v s t
        (λ a b. name_value-lower trigger_mode_names a b invalid)
        (unfold agrees name_value ci_equal in refl) (rw (no_value, trigger_mode_name) at e) w same)

printed : {a b : Text} → ◌≡◌ {A = Option Text} (some a) (some b) → b ≡ a
printed h = cc

-- The key press names of MCR_PRESS and MCR_UNPRESS read back as the invalid value, and that of
-- every other value that has one reads back as the value.
pub key_press-key_press_name :
    (v : ℕ) (s : Text)
    → key_press_name v ≡ some s
    → key_press (some s) ≡ (if v == apply_value set || v == apply_value unset then invalid else v)
unfolding key_press key_press_name
key_press-key_press_name v s h = elim (Bool-cases (v == apply_value set)) [
  | inl pressed ↦
      let e : s ≡ text "Press" = printed (rw pressed at h) in
      rw (pressed, e) (unfold apply_of name_value ci_equal in refl)
  | inr not_pressed ↦ elim (Bool-cases (v == apply_value unset)) [
    | inl released ↦
        let e : s ≡ text "Release" = printed (rw (not_pressed, released) at h) in
        rw (not_pressed, released, e) (unfold apply_of name_value ci_equal in refl)
    | inr not_released ↦
        rw (not_pressed, not_released)
          (switch_agrees (λ n. apply_of (some n)) apply_cases v s
            (unfold agrees apply_of name_value ci_equal in refl)
            (unfold apply_name in rw (not_pressed, not_released) at h)).1
  ]
]
