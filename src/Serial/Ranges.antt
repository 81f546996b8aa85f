-- ===== src/Serial/Ranges.antt =====
-- The largest values and the counts that mcr/serial.h gives out, and the values that have names.
use libmacro.Prelude.{
  ℕ, ◌+◌, ◌<◌, ◌≤◌, ◌≡◌, refl, Option, none, some, Bool, true, false, ◌==◌, ltb, arith, Bool-cases,
  inl, inr, ==_iff,
}
use libmacro.Types.{
  apply_value, toggle, flag_value, user_flag, mode_value, user_mode, dimension_count,
}
use libmacro.Text.{Text, IsText, ci_equal, same_ci}
use libmacro.Assoc.{lookup}
use libmacro.Serial.Tables.{invalid, name_value, switch_name}
use libmacro.Serial.Impl.{
  Serial, nat_eq, apply_of, apply_name, dimension_of, dimension_name, trigger_mode,
  trigger_mode_name, interrupt_of, interrupt_name, interrupt_count,
}
use libmacro.Serial.RoundTrip.{
  apply_of-apply_name, dimension_of-dimension_name, interrupt_of-interrupt_name,
  trigger_mode-trigger_mode_name,
}

-- `applyTypeMax` and `applyTypeCount`
abbrev pub apply_type_max : ℕ
apply_type_max = apply_value toggle

abbrev pub apply_type_count : ℕ
apply_type_count = apply_type_max + 1

-- `keyPressMax` and `keyPressCount`
abbrev pub key_press_max : ℕ
key_press_max = apply_type_max

abbrev pub key_press_count : ℕ
key_press_count = apply_type_count

-- `modifiersMax` and `triggerModeMax`
abbrev pub modifiers_max : ℕ
modifiers_max = flag_value user_flag

abbrev pub trigger_mode_max : ℕ
trigger_mode_max = mode_value user_mode

-- The enumerations whose values have names of their own
pub data Enumeration : Type 0 where
  apply_values dimensions interrupts trigger_modes : Enumeration

abbrev pub name_in : Enumeration → Serial → ℕ → Option Text
name_in apply_values x v = apply_name v
name_in dimensions x v = dimension_name v
name_in interrupts x v = interrupt_name v
name_in trigger_modes x v = trigger_mode_name x v

abbrev pub read_in : Enumeration → Serial → Option Text → ℕ
read_in apply_values x name = apply_of name
read_in dimensions x name = dimension_of name
read_in interrupts x name = interrupt_of name
read_in trigger_modes x name = trigger_mode x name

abbrev pub count_in : Enumeration → ℕ
count_in apply_values = apply_type_count
count_in dimensions = dimension_count + 1
count_in interrupts = interrupt_count
count_in trigger_modes = trigger_mode_max + 1

-- No extension names the value or the string.
abbrev pub IsBuiltIn : Enumeration → Serial → ℕ → Text → Type 0
IsBuiltIn trigger_modes x v t =
    (lookup nat_eq v x.trigger_mode_value_ext ≡ none)
    × (lookup same_ci t x.trigger_mode_name_ext ≡ none)
IsBuiltIn _ x v t = Unit

-- A value with a name is below the count, and a string reads as it exactly if it is the name up to
-- case; a value without one is not below the count.
abbrev pub PrintsAndReads : (count v : ℕ) → (read : ℕ) → Text → Option Text → Type 0
PrintsAndReads count v read t none = count ≤ v
PrintsAndReads count v read t (some s) = (v < count) × ((read == v) ≡ ci_equal (some s) (some t))

is_some : Option Text → Bool
is_some none = false
is_some (some s) = true

named_exactly :
    (count v read : ℕ) (t : Text) (name : Option Text)
    → is_some name ≡ ltb v count
    → ((s : Text) → name ≡ some s → ci_equal (some s) (some t) ≡ true → read ≡ v)
    → ((s : Text) → name ≡ some s → read ≡ v → ci_equal (some s) (some t) ≡ true)
    → PrintsAndReads count v read t name
unfolding is_some
named_exactly count v read t none range to back = ground arith
named_exactly count v read t (some s) range to back = (
  ground arith,
  elim (Bool-cases (ci_equal (some s) (some t))) [
    | inl same ↦ let e = to s refl same in ground arith
    | inr other ↦ elim (Bool-cases (read == v)) [
      | inl reads ↦ let e = back s refl ((==_iff read v).0 reads) in absurd (ground arith)
      | inr reads_not ↦ ground arith
    ]
  ],
)

apply_back :
    (v : ℕ) (s t : Text)
    → apply_name v ≡ some s
    → apply_of (some t) ≡ v
    → ci_equal (some s) (some t) ≡ true
unfolding apply_of apply_name name_value switch_name
apply_back v s t h e = ground arith

dimension_back :
    (v : ℕ) (s t : Text)
    → dimension_name v ≡ some s
    → dimension_of (some t) ≡ v
    → ci_equal (some s) (some t) ≡ true
unfolding dimension_of dimension_name name_value switch_name
dimension_back v s t h e = ground arith

interrupt_back :
    (v : ℕ) (s t : Text)
    → interrupt_name v ≡ some s
    → interrupt_of (some t) ≡ v
    → ci_equal (some s) (some t) ≡ true
unfolding interrupt_of interrupt_name name_value switch_name
interrupt_back v s t h e = ground arith

mode_back :
    (x : Serial) (v : ℕ) (s t : Text)
    → lookup nat_eq v x.trigger_mode_value_ext ≡ none
    → lookup same_ci t x.trigger_mode_name_ext ≡ none
    → trigger_mode_name x v ≡ some s
    → trigger_mode x (some t) ≡ v
    → ci_equal (some s) (some t) ≡ true
unfolding trigger_mode trigger_mode_name name_value switch_name
mode_back x v s t no_value no_name h e = ground arith

apply_range : (v : ℕ) → is_some (apply_name v) ≡ ltb v apply_type_count
unfolding is_some apply_name switch_name
apply_range v = ground arith

dimension_range : (v : ℕ) → is_some (dimension_name v) ≡ ltb v (dimension_count + 1)
unfolding is_some dimension_name switch_name
dimension_range v = ground arith

interrupt_range : (v : ℕ) → is_some (interrupt_name v) ≡ ltb v interrupt_count
unfolding is_some interrupt_name switch_name interrupt_count
interrupt_range v = ground arith

mode_range :
    (x : Serial) (v : ℕ)
    → lookup nat_eq v x.trigger_mode_value_ext ≡ none
    → is_some (trigger_mode_name x v) ≡ ltb v (trigger_mode_max + 1)
unfolding is_some trigger_mode_name switch_name
mode_range x v no_value = ground arith

-- For each apply value, dimension, interrupt and trigger mode, where no extension names the value
-- or the C string: a value that has a name is below the count of the enumeration, which is 4, one
-- more than `dimensionCount`, `interruptCount`, or one more than `triggerModeMax`, and the string
-- reads as it exactly if it is the name up to case; a value without one is not below that count; a
-- null string reads as -1.
pub values_named :
    (k : Enumeration) (x : Serial) (v : ℕ) (t : Text)
    → IsText t
    → IsBuiltIn k x v t
    → PrintsAndReads (count_in k) v (read_in k x (some t)) t (name_in k x v)
      × (read_in k x none ≡ invalid)
unfolding apply_of dimension_of interrupt_of trigger_mode
values_named apply_values x v t w b = (
  named_exactly apply_type_count v (apply_of (some t)) t (apply_name v) (apply_range v)
      (λ s h. apply_of-apply_name v s t h w) (λ s. apply_back v s t),
  refl,
)
values_named dimensions x v t w b = (
  named_exactly (dimension_count + 1) v (dimension_of (some t)) t (dimension_name v)
      (dimension_range v) (λ s h. dimension_of-dimension_name v s t h w)
      (λ s. dimension_back v s t),
  refl,
)
values_named interrupts x v t w b = (
  named_exactly interrupt_count v (interrupt_of (some t)) t (interrupt_name v) (interrupt_range v)
      (λ s h. interrupt_of-interrupt_name v s t h w) (λ s. interrupt_back v s t),
  refl,
)
values_named trigger_modes x v t w (no_value, no_name) = (
  named_exactly (trigger_mode_max + 1) v (trigger_mode x (some t)) t (trigger_mode_name x v)
      (mode_range x v no_value) (λ s h. trigger_mode-trigger_mode_name x v s t no_value no_name h w)
      (λ s. mode_back x v s t no_value no_name),
  refl,
)
