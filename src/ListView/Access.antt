-- ===== src/ListView/Access.antt =====
-- What a view lets its user reach.
use libmacro.Prelude.{ℕ, ◌≡◌, ◌==◌, ltb, if◌then◌else◌, arith}
use libmacro.Error.{ok, throw, einval, erange, ◌>>=◌}
use libmacro.Context.{same_flag}
use libmacro.ListView.{new_list, validate, offset, at, empty}

-- Of a null array with elements, or another array without any, no view is made (EINVAL). A view is
-- empty exactly if its array is null; it reads the elements of the array below its count, and
-- answers every other index with ERANGE; a pointer to an element is given out under the same
-- condition.
pub new_list_lem :
    {A : Type 0} (memory : ℕ × ℕ → A) (array size index : ℕ)
    → let valid = same_flag (array == 0) (size == 0) in
      ((new_list array size >>= λ v. ok (empty v))
        ≡ (if valid then ok (array == 0) else throw einval))
      × ((new_list array size >>= λ v. at memory v index) ≡ (
          if valid
          then (if ltb index size then ok (memory (array, index)) else throw erange)
          else throw einval))
      × ((new_list array size >>= λ v. offset v index) ≡ (
          if valid
          then (if ltb index size then ok (array, index) else throw erange)
          else throw einval))
unfolding new_list validate empty at offset
new_list_lem memory array size index = (ground arith, ground arith, ground arith)
