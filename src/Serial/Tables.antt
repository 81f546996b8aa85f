-- ===== src/Serial/Tables.antt =====
-- src/serial.cpp: the tables of names, and the search in one.
use libmacro.Prelude.{ℕ, ◌-◌, ◌^◌, List, [], ◌∷◌, Option, none, some, ◌==◌, if◌then◌else◌}
use libmacro.Types.{
  dimension_value, dim_x, dim_y, dim_z, dim_w, apply_value, set, unset, both, toggle, flag_value,
  no_flag, alt, altgr, amiga, cmd, code, compose, ctrl, fn, front, graph, hyper, meta, shift, super,
  symbol, top, os, user_flag, any_flag, mode_value, equal_mode, all_mode, none_mode, exclusive_mode,
  inequal_mode, match_mode, any_mode, user_mode, interrupt_value, continue, pause, interrupt,
  interrupt_all, disable,
}
use Prim.Native.String.{String}
use libmacro.Text.{Text, text, ci_equal}

-- `(T)-1`, for the enumerations and for `int` alike
abbrev pub invalid : ℕ
invalid = 2 ^ 32 - 1

-- `struct NameValue`
pub record NameValue : Type 0 where
  pub name : Text
  pub value : ℕ

-- `nameValue`: the value of the first entry of that name
unfoldable pub name_value : List NameValue → Option Text → ℕ → ℕ
name_value [] name not_found = not_found
name_value (e ∷ es) name not_found =
    if ci_equal (some e.name) name then e.value else name_value es name not_found

abbrev entry : String → ℕ → NameValue
entry s v = record { name = text s; value = v }

abbrev pub apply_names : List NameValue
apply_names =
    entry "Set" (apply_value set)
    ∷ entry "Unset" (apply_value unset)
    ∷ entry "Both" (apply_value both)
    ∷ entry "Toggle" (apply_value toggle)
    ∷ []

abbrev pub dimension_names : List NameValue
dimension_names =
    entry "X" (dimension_value dim_x)
    ∷ entry "Y" (dimension_value dim_y)
    ∷ entry "Z" (dimension_value dim_z)
    ∷ entry "W" (dimension_value dim_w)
    ∷ []

abbrev pub interrupt_names : List NameValue
interrupt_names =
    entry "Continue" (interrupt_value continue)
    ∷ entry "Pause" (interrupt_value pause)
    ∷ entry "Interrupt One" (interrupt_value interrupt)
    ∷ entry "Interrupt All" (interrupt_value interrupt_all)
    ∷ entry "Disable" (interrupt_value disable)
    ∷ []

abbrev pub modifier_names : List NameValue
modifier_names =
    entry "None" (flag_value no_flag)
    ∷ entry "Any" (flag_value any_flag)
    ∷ entry "Alt" (flag_value alt)
    ∷ entry "AltGr" (flag_value altgr)
    ∷ entry "Amiga" (flag_value amiga)
    ∷ entry "Cmd" (flag_value cmd)
    ∷ entry "Code" (flag_value code)
    ∷ entry "Compose" (flag_value compose)
    ∷ entry "Ctrl" (flag_value ctrl)
    ∷ entry "Fn" (flag_value fn)
    ∷ entry "Front" (flag_value front)
    ∷ entry "Graph" (flag_value graph)
    ∷ entry "Hyper" (flag_value hyper)
    ∷ entry "Meta" (flag_value meta)
    ∷ entry "Shift" (flag_value shift)
    ∷ entry "Super" (flag_value super)
    ∷ entry "Symbol" (flag_value symbol)
    ∷ entry "Top" (flag_value top)
    ∷ entry "OS" (flag_value os)
    ∷ entry "User" (flag_value user_flag)
    ∷ []

abbrev pub modifier_aliases : List NameValue
modifier_aliases =
    entry "Option" (flag_value alt)
    ∷ entry "Alt Gr" (flag_value altgr)
    ∷ entry "alt_gr" (flag_value altgr)
    ∷ entry "Command" (flag_value cmd)
    ∷ entry "Control" (flag_value ctrl)
    ∷ entry "Win" (flag_value os)
    ∷ entry "Mac" (flag_value os)
    ∷ entry "Linux" (flag_value os)
    ∷ entry "Unix" (flag_value os)
    ∷ entry "Windows" (flag_value os)
    ∷ entry "Window" (flag_value os)
    ∷ entry "Apple" (flag_value os)
    ∷ entry "Macintosh" (flag_value os)
    ∷ []

abbrev pub trigger_mode_names : List NameValue
trigger_mode_names =
    entry "Equal" (mode_value equal_mode)
    ∷ entry "All" (mode_value all_mode)
    ∷ entry "None" (mode_value none_mode)
    ∷ entry "Exclusive" (mode_value exclusive_mode)
    ∷ entry "Inequal" (mode_value inequal_mode)
    ∷ entry "Match" (mode_value match_mode)
    ∷ entry "Any" (mode_value any_mode)
    ∷ entry "User" (mode_value user_mode)
    ∷ []

-- The cases of a `switch` over a value, in order: each a value and the name that it returns.
unfoldable pub switch_name : List NameValue → ℕ → Option Text
switch_name [] value = none
switch_name (e ∷ es) value = if value == e.value then some e.name else switch_name es value

abbrev pub apply_cases : List NameValue
apply_cases =
    entry "Set" (apply_value set)
    ∷ entry "Unset" (apply_value unset)
    ∷ entry "Both" (apply_value both)
    ∷ entry "Toggle" (apply_value toggle)
    ∷ []

abbrev pub dimension_cases : List NameValue
dimension_cases =
    entry "X" (dimension_value dim_x)
    ∷ entry "Y" (dimension_value dim_y)
    ∷ entry "Z" (dimension_value dim_z)
    ∷ entry "W" (dimension_value dim_w)
    ∷ []

abbrev pub modifiers_cases : List NameValue
modifiers_cases =
    entry "None" (flag_value no_flag)
    ∷ entry "Any" (flag_value any_flag)
    ∷ entry "Alt" (flag_value alt)
    ∷ entry "AltGr" (flag_value altgr)
    ∷ entry "Amiga" (flag_value amiga)
    ∷ entry "Cmd" (flag_value cmd)
    ∷ entry "Code" (flag_value code)
    ∷ entry "Compose" (flag_value compose)
    ∷ entry "Ctrl" (flag_value ctrl)
    ∷ entry "Fn" (flag_value fn)
    ∷ entry "Front" (flag_value front)
    ∷ entry "Graph" (flag_value graph)
    ∷ entry "Hyper" (flag_value hyper)
    ∷ entry "Meta" (flag_value meta)
    ∷ entry "Shift" (flag_value shift)
    ∷ entry "Super" (flag_value super)
    ∷ entry "Symbol" (flag_value symbol)
    ∷ entry "Top" (flag_value top)
    ∷ entry "OS" (flag_value os)
    ∷ entry "User" (flag_value user_flag)
    ∷ []

abbrev pub trigger_mode_cases : List NameValue
trigger_mode_cases =
    entry "Equal" (mode_value equal_mode)
    ∷ entry "All" (mode_value all_mode)
    ∷ entry "None" (mode_value none_mode)
    ∷ entry "Exclusive" (mode_value exclusive_mode)
    ∷ entry "Inequal" (mode_value inequal_mode)
    ∷ entry "Any" (mode_value any_mode)
    ∷ entry "User" (mode_value user_mode)
    ∷ entry "Match" (mode_value match_mode)
    ∷ []

abbrev pub interrupt_cases : List NameValue
interrupt_cases =
    entry "Continue" (interrupt_value continue)
    ∷ entry "Pause" (interrupt_value pause)
    ∷ entry "Interrupt One" (interrupt_value interrupt)
    ∷ entry "Interrupt All" (interrupt_value interrupt_all)
    ∷ entry "Disable" (interrupt_value disable)
    ∷ []
