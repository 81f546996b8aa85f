-- ===== src/Word/Sets.antt =====
-- The tests that the library makes on words, as statements about sets of bits.
use libmacro.Prelude.{ℕ, ◌-◌, ◌≤◌, min, bit_and, bit_or, ◌≡◌, ap, arith, ◌↔◌}
use libmacro.Word.Digits.{bit, complement, IsWord}
use libmacro.Word.Bits.{
  bit-le-one, bit-zero, bit-bit_and, bit-bit_or, word_ext, bit-complement, bit_above_word,
  bit_and-IsWord, bit_or-IsWord,
}
use native.Mathlib.Decide.{dec_lt}

-- Every bit of `x` is a bit of `y`.
abbrev pub Subset : ℕ → ℕ → Type 0
Subset x y = (i : ℕ) → bit x i ≤ bit y i

-- No bit of `x` is a bit of `y`.
abbrev pub Disjoint : ℕ → ℕ → Type 0
Disjoint x y = (i : ℕ) → min (bit x i) (bit y i) ≡ 0

-- `(x & y) == x`
pub bit_and-eq-left : (x y : ℕ) → IsWord x → (bit_and x y ≡ x) ↔ Subset x y
bit_and-eq-left x y w = (
  λ e i. omega (arith, bit-bit_and x y i, ap (λ t. bit t i) e),
  λ s. word_ext _ x (bit_and-IsWord x y w) w (λ i. omega (arith, bit-bit_and x y i, s i)),
)

-- `(x & y) == y`
pub bit_and-eq-right : (x y : ℕ) → IsWord x → IsWord y → (bit_and x y ≡ y) ↔ Subset y x
bit_and-eq-right x y wx w = (
  λ e i. omega (arith, bit-bit_and x y i, ap (λ t. bit t i) e),
  λ s. word_ext _ y (bit_and-IsWord x y wx) w (λ i. omega (arith, bit-bit_and x y i, s i)),
)

-- `(x | y) == x`
pub bit_or-eq-left : (x y : ℕ) → IsWord x → IsWord y → (bit_or x y ≡ x) ↔ Subset y x
bit_or-eq-left x y wx wy = (
  λ e i. omega (arith, bit-bit_or x y i, ap (λ t. bit t i) e),
  λ s. word_ext _ x (bit_or-IsWord x y wx wy) wx (λ i. omega (arith, bit-bit_or x y i, s i)),
)

-- `(x & y) == 0`
pub bit_and-eq-zero : (x y : ℕ) → IsWord x → (bit_and x y ≡ 0) ↔ Disjoint x y
bit_and-eq-zero x y w = (
  λ e i. omega (arith, bit-bit_and x y i, ap (λ t. bit t i) e, bit-zero i),
  λ d.
      word_ext _ 0 (bit_and-IsWord x y w) (omega arith)
        (λ i. omega (arith, bit-bit_and x y i, d i, bit-zero i)),
)

-- `x & ~y` keeps the bits of `x` that `y` has not.
pub bit-bit_and-complement :
    (x y i : ℕ) → IsWord x → IsWord y → bit (bit_and x (complement y)) i ≡ bit x i - bit y i
bit-bit_and-complement x y i wx wy = elim (dec_lt i 32) [
  | yes lt ↦ omega (
    arith,
    bit-bit_and x (complement y) i,
    bit-complement y i wy lt,
    bit-le-one x i,
    bit-le-one y i,
  )
  | no ge ↦ omega (arith, bit-bit_and x (complement y) i, bit_above_word x i wx (omega arith))
]
