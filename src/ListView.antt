-- ===== src/ListView.antt =====
-- mcr/template/list.h: a view of an array as a pointer and a count. A pointer to an element is the
-- address of the array and the number of elements before it. `Printing` has `operator<<`.
pub mod Access
pub mod Printing
use libmacro.Prelude.{ℕ, ◌+◌, ◌==◌, Bool, true, false, leb, if◌then◌else◌}
use libmacro.Error.{Result, ok, throw, einval, erange}
use libmacro.Context.{same_flag}

pub record ListView : Type 0 where
  pub array : ℕ
  pub size : ℕ

unfoldable pub validate : ListView → Result ListView
validate v = if same_flag (v.array == 0) (v.size == 0) then ok v else throw einval

-- The constructor
unfoldable pub new_list : ℕ → ℕ → Result ListView
unfolding validate
new_list array size = validate (record { array = array; size = size })

-- `operator+`
unfoldable pub offset : ListView → ℕ → Result (ℕ × ℕ)
offset v index = if leb v.size index then throw erange else ok (v.array, index)

-- `operator[]`, with what stands in memory
unfoldable pub at : {A : Type 0} → (ℕ × ℕ → A) → ListView → ℕ → Result A
at memory v index = if leb v.size index then throw erange else ok (memory (v.array, index))

unfoldable pub empty : ListView → Bool
empty v = v.size == 0
