-- ===== src/Types.antt =====
-- mcr/types.h and mcr/signal/interrupt.h: the enumerations, each with the number of an enumerator.
-- An enumeration is an `unsigned int` to the code, so a value of it may be any word.
use libmacro.Prelude.{ℕ, ◌-◌, ◌+◌, ◌^◌}

-- `enum mcr_Dimension`, without the aliases
pub data Dimension : Type 0 where
  dim_x dim_y dim_z dim_w : Dimension

abbrev pub dimension_value : Dimension → ℕ
dimension_value dim_x = 0
dimension_value dim_y = 1
dimension_value dim_z = 2
dimension_value dim_w = 3

abbrev pub dimension_max : ℕ
dimension_max = dimension_value dim_z

abbrev pub dimension_count : ℕ
dimension_count = dimension_max + 1

-- `enum mcr_ApplyValue`; MCR_PRESS is `set` and MCR_UNPRESS is `unset`.
pub data ApplyValue : Type 0 where
  set unset both toggle : ApplyValue

abbrev pub apply_value : ApplyValue → ℕ
apply_value set = 0
apply_value unset = 1
apply_value both = 2
apply_value toggle = 3

-- `enum mcr_ModFlags`, without the aliases
pub data ModFlag : Type 0 where
  no_flag alt altgr amiga cmd code compose ctrl fn front graph hyper meta shift super symbol :
      ModFlag
  top os user_flag any_flag : ModFlag

abbrev pub flag_value : ModFlag → ℕ
flag_value no_flag = 0
flag_value alt = 1
flag_value altgr = 2 ^ 1
flag_value amiga = 2 ^ 2
flag_value cmd = 2 ^ 3
flag_value code = 2 ^ 4
flag_value compose = 2 ^ 5
flag_value ctrl = 2 ^ 6
flag_value fn = 2 ^ 7
flag_value front = 2 ^ 8
flag_value graph = 2 ^ 9
flag_value hyper = 2 ^ 10
flag_value meta = 2 ^ 11
flag_value shift = 2 ^ 12
flag_value super = 2 ^ 13
flag_value symbol = 2 ^ 14
flag_value top = 2 ^ 15
flag_value os = 2 ^ 16
flag_value user_flag = 2 ^ 17
flag_value any_flag = 2 ^ 32 - 1

-- `enum mcr_TriggerMode`
pub data TriggerMode : Type 0 where
  equal_mode all_mode none_mode exclusive_mode inequal_mode match_mode any_mode user_mode :
      TriggerMode

abbrev pub mode_value : TriggerMode → ℕ
mode_value equal_mode = 0
mode_value all_mode = 1
mode_value none_mode = 2
mode_value exclusive_mode = 3
mode_value inequal_mode = 4
mode_value match_mode = 5
mode_value any_mode = 6
mode_value user_mode = 7

-- `IInterrupt::Value`
pub data Interrupt : Type 0 where
  continue pause interrupt interrupt_all disable : Interrupt

abbrev pub interrupt_value : Interrupt → ℕ
interrupt_value continue = 0
interrupt_value pause = 1
interrupt_value interrupt = 2
interrupt_value interrupt_all = 3
interrupt_value disable = 4
