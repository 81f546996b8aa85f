-- ===== src/Flags.antt =====
-- src/api.cpp: the flag helpers of the C interface, and the matching of mcr/inline.h.
pub mod Combine
pub mod Sets
pub mod Matching
use libmacro.Prelude.{
  ℕ, zero, suc, ◌-◌, ◌^◌, bit_and, bit_or, Bool, false, not, Option, none, some, ◌==◌, ◌||◌,
  if◌then◌else◌,
}
use libmacro.Types.{
  flag_value, no_flag, mode_value, equal_mode, all_mode, none_mode, exclusive_mode, inequal_mode,
  any_mode,
}
use libmacro.Word.{complement}

-- `(mcr_index_t)~0`, with a 64-bit `size_t`
abbrev pub no_index : ℕ
no_index = 2 ^ 64 - 1

-- `while (length--) ret |= flagsArray[length];`
combine_loop : (ℕ → ℕ) → ℕ → ℕ → ℕ
combine_loop flags zero ret = ret
combine_loop flags (suc length) ret = combine_loop flags length (bit_or ret (flags length))

-- The array is what the pointer reads at each index, or null.
unfoldable pub flags_combine : Option (ℕ → ℕ) → ℕ → ℕ
unfolding combine_loop
flags_combine none length = flag_value no_flag
flags_combine (some flags) length =
    if length == no_index || length == 0 then flag_value no_flag else combine_loop flags length 0

unfoldable pub flags_add : ℕ → ℕ → ℕ
flags_add flags new_mod = bit_or flags new_mod

unfoldable pub flags_has : ℕ → ℕ → Bool
flags_has flags mod_val = bit_and flags mod_val == mod_val

unfoldable pub flags_remove : ℕ → ℕ → ℕ
unfolding complement
flags_remove flags del_mod = bit_and flags (complement del_mod)

-- `mcr_TriggerMode_match_inl`: the modes that the `switch` does not name do not match.
unfoldable pub trigger_mode_match : ℕ → ℕ → ℕ → Bool
trigger_mode_match mode matching incoming =
    if mode == mode_value equal_mode
    then matching == incoming
    else if mode == mode_value all_mode
    then bit_and matching incoming == matching
    else if mode == mode_value none_mode
    then bit_and matching incoming == 0
    else if mode == mode_value exclusive_mode
    then bit_or matching incoming == matching
    else if mode == mode_value inequal_mode
    then not (matching == incoming)
    else if mode == mode_value any_mode
    then not (bit_and matching incoming == 0)
    else false
