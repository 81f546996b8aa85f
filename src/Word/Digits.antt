-- ===== src/Word/Digits.antt =====
-- One binary digit at a time: the native operations meet the recursion `bit`.
use Prim.Native.Nat.{digits, bit_and-bitwise, bit_or-bitwise}
use libmacro.Prelude.{
  ℕ, zero, suc, ◌+◌, ◌-◌, ◌*◌, ◌/◌, ◌%◌, ◌^◌, ◌≤◌, ◌<◌, min, max, bit_and, bit_or, ◌≡◌, refl, arith,
}

-- The digit of `x` at place `i`.
unfoldable pub bit : ℕ → ℕ → ℕ
bit x zero = x % 2
bit x (suc i) = bit (x / 2) i

abbrev pub word_size : ℕ
word_size = 2 ^ 32

abbrev pub IsWord : ℕ → Type 0
IsWord x = x < word_size

-- `~x`
unfoldable pub complement : ℕ → ℕ
complement x = word_size - 1 - x

-- `digits` needs no more fuel than its first number.
module _ (z : ℕ → ℕ) (f : ℕ → ℕ → ℕ) where
  digits_settled : (k l x y : ℕ) → x ≤ k → x ≤ l → digits z f k x y ≡ digits z f l x y
  digits_settled zero zero x y p q = refl
  digits_settled zero (suc l) zero y p q = refl
  digits_settled zero (suc l) (suc x) y p q = absurd (omega arith)
  digits_settled (suc k) zero zero y p q = refl
  digits_settled (suc k) zero (suc x) y p q = absurd (omega arith)
  digits_settled (suc k) (suc l) zero y p q = refl
  digits_settled (suc k) (suc l) (suc x) y p q =
      let halves = digits_settled k l (suc x / 2) (y / 2) (omega arith) (omega arith) in
      omega (arith, halves)

pub zero-bit_and : (y : ℕ) → bit_and 0 y ≡ 0
zero-bit_and y = bit_and-bitwise 0 y

pub bit_and-halves : (x y : ℕ) → bit_and x y ≡ bit_and (x / 2) (y / 2) * 2 + min (x % 2) (y % 2)
bit_and-halves zero y = omega (arith, zero-bit_and y, zero-bit_and (y / 2))
bit_and-halves (suc x) y = omega (
  arith,
  bit_and-bitwise (suc x) y,
  bit_and-bitwise (suc x / 2) (y / 2),
  digits_settled (λ _. 0) min x (suc x / 2) (suc x / 2) (y / 2) (omega arith) (omega arith),
)

pub bit_or-halves : (x y : ℕ) → bit_or x y ≡ bit_or (x / 2) (y / 2) * 2 + max (x % 2) (y % 2)
bit_or-halves zero y = omega (arith, bit_or-bitwise 0 y, bit_or-bitwise 0 (y / 2))
bit_or-halves (suc x) y = omega (
  arith,
  bit_or-bitwise (suc x) y,
  bit_or-bitwise (suc x / 2) (y / 2),
  digits_settled (λ v. v) max x (suc x / 2) (suc x / 2) (y / 2) (omega arith) (omega arith),
)
