-- ===== src/ListView/Printing.antt =====
-- `operator<<` of a view: what a stream receives. How an element is printed is the stream's.
use libmacro.Prelude.{
  ℕ, zero, suc, ◌+◌, ◌-◌, ◌<◌, ◌≡◌, ap, refl, List, [], ◌∷◌, ◌++◌, true, false, ltb, leb,
  if◌then◌else◌, arith,
}
use mathlib.Core.List.{append-nil}
use libmacro.Error.{Result, ok, blocked, ◌>>=◌}
use libmacro.Text.{Text, text}
use libmacro.ListView.{ListView, at}

module _ {A : Type 0} (memory : ℕ × ℕ → A) (shown : A → Text) where
  -- The `for` loop from `i` on, which has `rounds` to end; in its body the count is positive.
  unfoldable pub print_loop : ℕ → ℕ → ListView → Result Text
  unfolding at
  print_loop zero i v = blocked
  print_loop (suc rounds) i v =
      let more = print_loop rounds (i + 1) v in
      if ltb i v.size
      then (do
        element ← at memory v i
        rest ← more
        ok (shown element ++ ((if ltb i (v.size - 1) then text ", " else []) ++ rest)))
      else ok []

  unfoldable pub print : ℕ → ListView → Result Text
  unfolding print_loop
  print rounds v = do elements ← print_loop rounds 0 v; ok (text "[ " ++ (elements ++ text " ]"))

module _ {A : Type 0} (memory : ℕ × ℕ → A) where
  -- The elements from the index `i` on, `n` of them
  abbrev pub elements : ListView → ℕ → ℕ → List A
  elements v i zero = []
  elements v i (suc n) = memory (v.array, i) ∷ elements v (i + 1) n

-- The texts of a list, with a comma between two of them
abbrev pub joined {ℓ} : {A : Type ℓ} → (A → Text) → List A → Text
joined shown [] = []
joined shown (x ∷ []) = shown x
joined shown (x ∷ y ∷ xs) = shown x ++ (text ", " ++ joined shown (y ∷ xs))

module _ {A : Type 0} (memory : ℕ × ℕ → A) (shown : A → Text) where
  print_loop_lem :
      (n i rounds : ℕ) (v : ListView)
      → i + n ≡ v.size
      → n < rounds
      → print_loop memory shown rounds i v ≡ ok (joined shown (elements memory v i n))
  unfolding print_loop at
  print_loop_lem n i zero v e few = absurd (omega arith)
  print_loop_lem zero i (suc rounds) v e few = ground arith
  print_loop_lem (suc zero) i (suc rounds) v e few =
      let rest = print_loop_lem zero (i + 1) rounds v (omega arith) (omega arith) in
      let below : ltb i v.size ≡ true = ground arith in
      let inside : leb v.size i ≡ false = ground arith in
      let last : ltb i (v.size - 1) ≡ false = ground arith in
      simp (below, inside, last, rest) (ap ok (append-nil (shown (memory (v.array, i)))))
  print_loop_lem (suc (suc n)) i (suc rounds) v e few =
      let rest = print_loop_lem (suc n) (i + 1) rounds v (omega arith) (omega arith) in
      let below : ltb i v.size ≡ true = ground arith in
      let inside : leb v.size i ≡ false = ground arith in
      let early : ltb i (v.size - 1) ≡ true = ground arith in simp (below, inside, early, rest) refl

  -- With more rounds than elements, the printing of a view ends without an error and gives its
  -- elements in order, with a comma between two of them, between brackets.
  pub print-joined :
      (v : ListView) (rounds : ℕ)
      → v.size < rounds
      → print memory shown rounds v
        ≡ ok (text "[ " ++ (joined shown (elements memory v 0 v.size) ++ text " ]"))
  unfolding print
  print-joined v rounds few = rw (print_loop_lem v.size 0 rounds v (omega arith) few) refl
