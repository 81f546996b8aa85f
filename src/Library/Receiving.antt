-- ===== src/Library/Receiving.antt =====
-- A set of receivers that is known by its members.
use libmacro.Prelude.{ℕ, ◌≡◌, List, [], ◌∷◌, ◌==◌, arith, has, IsSetList}

-- A set with exactly one member is a list of one entry.
pub one_member :
    (t : ℕ) (xs : List ℕ) → IsSetList xs → ((r : ℕ) → has r xs ≡ (t == r)) → xs ≡ t ∷ []
one_member t [] once only = let e = only t in ground arith
one_member t (x ∷ []) once only = let e = only x in ground arith
one_member t (x ∷ y ∷ xs) once only =
    let a = only x in let b = only y in let c = once x in absurd (ground arith)
