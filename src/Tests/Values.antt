-- ===== src/Tests/Values.antt =====
-- Examples of flags, signals, names and what they stand for.
use libmacro.Error.{ok}
use libmacro.Text.{Text}
use libmacro.ListView.{ListView}
use libmacro.ListView.Printing.{print, print-joined}
use libmacro.Serial.Impl.{apply_of, apply_name}
use libmacro.Serial.Ranges.{apply_values, apply_type_count, values_named}
use libmacro.Prelude.{
  ℕ, ◌+◌, ◌≤◌, ◌<◌, ◌≡◌, ◌↔◌, refl, max, none, some, true, [], ◌∷◌, ◌==◌, if◌then◌else◌, arith,
}
use libmacro.Prelude.Int.{pos}
use libmacro.Word.{bit, IsWord, Disjoint}
use libmacro.Types.{any_mode, mode_value, toggle, set, apply_value}
use libmacro.Flags.{flags_combine, flags_has, flags_add, flags_remove, trigger_mode_match}
use libmacro.Flags.Combine.{flags_combine_union}
use libmacro.Flags.Sets.{flags_has-add-remove}
use libmacro.Flags.Matching.{Matches, trigger_mode_match-Matches}
use libmacro.Signals.Modifier.{Effect, modifier_of, send-Effect}
use libmacro.Signals.Modifier
use libmacro.Signals.NoOp.{NoOp}
use libmacro.Text.{text, lower, ci_equal, same_ci}
use libmacro.Text.Laws.{ci_equal_iff}
use libmacro.Assoc.{lookup}
use libmacro.Serial.Tables.{invalid, switch_name}
use libmacro.Serial.Impl.{
  create_serial, key_press, key_press_name, modifiers, modifiers_name, trigger_mode,
  trigger_mode_name, shift_count, modifiers_count, trigger_mode_count,
}
use libmacro.Serial.RoundTrip.{
  modifiers-modifiers_name, trigger_mode-trigger_mode_name, key_press-key_press_name,
}

abbrev some_flags : ℕ → ℕ
some_flags j = if j == 0 then 5 else 2

three_combined :
    IsWord (flags_combine (some some_flags) 2)
    × ((bit (flags_combine (some some_flags) 2) 1 ≡ 1)
        ↔ ((j : ℕ) × (j < 2) × (bit (some_flags j) 1 ≡ 1)))
three_combined = flags_combine_union some_flags 2 1 (λ e. omega arith) (λ j lt. ground arith)

three_added :
    ((flags_has (flags_add 5 2) 3 ≡ true) ↔ ((i : ℕ) → bit 3 i ≤ max (bit 5 i) (bit 2 i)))
    × ((flags_has (flags_remove 5 2) 3 ≡ true) ↔ ((flags_has 5 3 ≡ true) × Disjoint 3 2))
three_added = flags_has-add-remove 5 3 2 (omega arith) (omega arith) (omega arith)

trigger_mode_match-Matches_example :
    (trigger_mode_match (mode_value any_mode) 5 4 ≡ true) ↔ Matches any_mode 5 4
trigger_mode_match-Matches_example =
    trigger_mode_match-Matches any_mode 5 4 (omega arith) (omega arith)

flag_toggled : Effect toggle 1 7 (Modifier.send (modifier_of toggle 1) 7)
flag_toggled = send-Effect toggle 1 7 (omega arith) (omega arith)

abbrev long_wait : NoOp
long_wait = record { seconds = pos 2; milliseconds = pos 30 }

same_names :
    ((ci_equal (some (text "Ctrl")) (some (text "CTRL")) ≡ true)
      ↔ (lower (text "Ctrl") ≡ lower (text "CTRL")))
    × (ci_equal (some (text "Ctrl")) (some (text "CTRL")) ≡ same_ci (text "Ctrl") (text "CTRL"))
same_names =
    ci_equal_iff (text "Ctrl") (text "CTRL")
      (omega arith, (omega arith, (omega arith, (omega arith, tt))))
      (omega arith, (omega arith, (omega arith, (omega arith, tt))))

modifiers-modifiers_name_example : modifiers create_serial (some (text "ALT")) ≡ 1
unfolding lookup switch_name modifiers_name ci_equal
modifiers-modifiers_name_example =
    modifiers-modifiers_name create_serial 1 (text "Alt") (text "ALT") refl refl refl
      (omega arith, (omega arith, (omega arith, tt))) refl

trigger_mode-trigger_mode_name_example : trigger_mode create_serial (some (text "all")) ≡ 1
unfolding lookup switch_name trigger_mode_name ci_equal
trigger_mode-trigger_mode_name_example =
    trigger_mode-trigger_mode_name create_serial 1 (text "All") (text "all") refl refl refl
      (omega arith, (omega arith, (omega arith, tt))) refl

press_read_back : key_press (some (text "Press")) ≡ invalid
press_read_back =
    key_press-key_press_name (apply_value set) (text "Press") (unfold key_press_name in refl)

-- The two counts that the program offers
modifiers_count-value : modifiers_count ≡ some 17
unfolding modifiers_count shift_count
modifiers_count-value = refl

trigger_mode_count-value : trigger_mode_count ≡ some 2
unfolding trigger_mode_count shift_count
trigger_mode_count-value = refl

values_named_example :
    ((3 < apply_type_count)
      × ((apply_of (some (text "toggle")) == 3)
          ≡ ci_equal (some (text "Toggle")) (some (text "toggle"))))
    × (apply_of none ≡ invalid)
unfolding apply_name switch_name
values_named_example =
    values_named apply_values create_serial 3 (text "toggle")
      (omega arith, (omega arith, (omega arith, (omega arith, (omega arith, (omega arith, tt))))))
      tt

abbrev three_numbers : ListView
three_numbers = record { array = 9; size = 3 }

-- A number below ten is printed as its digit.
abbrev digit : ℕ → Text
digit n = (b'0' + n) ∷ []

three_printed : print (λ p. p.1) digit 4 three_numbers ≡ ok (text "[ 0, 1, 2 ]")
three_printed = print-joined (λ p. p.1) digit three_numbers 4 (omega arith)
