-- ===== src/Serial/Impl.antt =====
-- src/serial.cpp: `SerialImpl`. A `const char *` is an optional text, a value of an enumeration a
-- word.
use libmacro.Prelude.{
  ℕ, zero, suc, ◌+◌, ◌/◌, List, [], Option, none, some, Bool, ◌==◌, if◌then◌else◌,
}
use libmacro.Types.{
  apply_value, set, unset, flag_value, any_flag, user_flag, mode_value, user_mode, interrupt_value,
  disable,
}
use libmacro.Text.{Text, text, same_ci}
use libmacro.Assoc.{lookup, insert, erase}
use libmacro.Serial.Tables.{
  invalid, name_value, switch_name, apply_names, dimension_names, interrupt_names, modifier_names,
  modifier_aliases, trigger_mode_names, apply_cases, dimension_cases, modifiers_cases,
  trigger_mode_cases, interrupt_cases,
}

abbrev pub nat_eq : ℕ → ℕ → Bool
nat_eq a b = a == b

-- The extension maps of `SerialImpl`
pub record Serial : Type 0 where
  pub modifier_name_ext : List (Text × ℕ)
  pub modifier_value_ext : List (ℕ × Text)
  pub trigger_mode_name_ext : List (Text × ℕ)
  pub trigger_mode_value_ext : List (ℕ × Text)

abbrev pub create_serial : Serial
create_serial = record {
  modifier_name_ext = [];
  modifier_value_ext = [];
  trigger_mode_name_ext = [];
  trigger_mode_value_ext = [];
}

unfoldable pub set_modifier_name : Option Text → ℕ → Serial → Serial
set_modifier_name none value s = s
set_modifier_name (some name) value s = record s {
  modifier_name_ext = insert same_ci name value s.modifier_name_ext;
}

unfoldable pub set_modifier_value_name : ℕ → Option Text → Serial → Serial
set_modifier_value_name value none s = s
set_modifier_value_name value (some name) s = record s {
  modifier_value_ext = insert nat_eq value name s.modifier_value_ext;
}

unfoldable pub remove_modifier_name : Option Text → Serial → Serial
remove_modifier_name none s = s
remove_modifier_name (some name) s = record s {
  modifier_name_ext = erase same_ci name s.modifier_name_ext;
}

unfoldable pub set_trigger_mode_name : Option Text → ℕ → Serial → Serial
set_trigger_mode_name none value s = s
set_trigger_mode_name (some name) value s = record s {
  trigger_mode_name_ext = insert same_ci name value s.trigger_mode_name_ext;
}

unfoldable pub set_trigger_mode_value_name : ℕ → Option Text → Serial → Serial
set_trigger_mode_value_name value none s = s
set_trigger_mode_value_name value (some name) s = record s {
  trigger_mode_value_ext = insert nat_eq value name s.trigger_mode_value_ext;
}

unfoldable pub remove_trigger_mode_name : Option Text → Serial → Serial
remove_trigger_mode_name none s = s
remove_trigger_mode_name (some name) s = record s {
  trigger_mode_name_ext = erase same_ci name s.trigger_mode_name_ext;
}

unfoldable pub apply_of : Option Text → ℕ
apply_of none = invalid
apply_of (some name) = name_value apply_names (some name) invalid

unfoldable pub apply_name : ℕ → Option Text
apply_name value = switch_name apply_cases value

-- `ISerial::keyPress`
unfoldable pub key_press : Option Text → ℕ
key_press name = apply_of name

unfoldable pub key_press_name : ℕ → Option Text
key_press_name value =
    if value == apply_value set
    then some (text "Press")
    else if value == apply_value unset
    then some (text "Release")
    else apply_name value

unfoldable pub dimension_of : Option Text → ℕ
dimension_of none = invalid
dimension_of (some name) = name_value dimension_names (some name) invalid

unfoldable pub dimension_name : ℕ → Option Text
dimension_name value = switch_name dimension_cases value

-- The built-in names of modifiers, then the aliases; a value of MCR_MF_ANY counts as not found.
unfoldable pub builtin_modifiers : Text → ℕ
builtin_modifiers name =
    let ret = name_value modifier_names (some name) (flag_value any_flag) in
    if ret == flag_value any_flag
    then name_value modifier_aliases (some name) (flag_value any_flag)
    else ret

unfoldable pub modifiers : Serial → Option Text → ℕ
modifiers s none = flag_value any_flag
modifiers s (some name) = elim (lookup same_ci name s.modifier_name_ext) [
  | some value ↦ value
  | none ↦ builtin_modifiers name
]

unfoldable pub modifiers_name : Serial → ℕ → Option Text
modifiers_name s value = elim (lookup nat_eq value s.modifier_value_ext) [
  | some name ↦ some name
  | none ↦ switch_name modifiers_cases value
]

unfoldable pub trigger_mode : Serial → Option Text → ℕ
trigger_mode s none = invalid
trigger_mode s (some name) = elim (lookup same_ci name s.trigger_mode_name_ext) [
  | some value ↦ value
  | none ↦ name_value trigger_mode_names (some name) invalid
]

unfoldable pub trigger_mode_name : Serial → ℕ → Option Text
trigger_mode_name s value = elim (lookup nat_eq value s.trigger_mode_value_ext) [
  | some name ↦ some name
  | none ↦ switch_name trigger_mode_cases value
]

unfoldable pub interrupt_of : Option Text → ℕ
interrupt_of none = invalid
interrupt_of (some name) = name_value interrupt_names (some name) invalid

abbrev pub interrupt_max : ℕ
interrupt_max = interrupt_value disable

unfoldable pub interrupt_count : ℕ
interrupt_count = interrupt_value disable + 1

unfoldable pub interrupt_name : ℕ → Option Text
interrupt_name value = switch_name interrupt_cases value

-- `while ((flag >>= 1)) ++ret;`, or `none` when the fuel has run out
unfoldable pub shift_count : ℕ → ℕ → ℕ → Option ℕ
shift_count zero flag ret = none
shift_count (suc fuel) flag ret =
    let rest = shift_count fuel (flag / 2) (ret + 1) in if flag / 2 == 0 then some ret else rest

-- An index has 64 bits, so 64 rounds are enough.
unfoldable pub modifiers_count : Option ℕ
modifiers_count = shift_count 64 (flag_value user_flag) 0

unfoldable pub trigger_mode_count : Option ℕ
trigger_mode_count = shift_count 64 (mode_value user_mode) 0
