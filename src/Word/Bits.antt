-- ===== src/Word/Bits.antt =====
-- Words as sets of bits: what each operator does to one bit, and words that agree on every bit.
use native.Mathlib.Nat.{pow-suc}
use libmacro.Prelude.{
  ℕ, zero, suc, ◌-◌, ◌/◌, ◌%◌, ◌^◌, ◌≤◌, ◌<◌, min, max, bit_and, bit_or, ◌≡◌, refl, arith,
}
use libmacro.Word.Digits.{bit, complement, IsWord, bit_and-halves, bit_or-halves, zero-bit_and}

pub bit-le-one : (x i : ℕ) → bit x i ≤ 1
unfolding bit
bit-le-one x zero = omega arith
bit-le-one x (suc i) = bit-le-one (x / 2) i

pub bit-zero : (i : ℕ) → bit 0 i ≡ 0
unfolding bit
bit-zero zero = refl
bit-zero (suc i) = bit-zero i

pub bit-bit_and : (x y i : ℕ) → bit (bit_and x y) i ≡ min (bit x i) (bit y i)
unfolding bit
bit-bit_and x y zero = omega (arith, bit_and-halves x y)
bit-bit_and x y (suc i) =
    let half : bit_and x y / 2 ≡ bit_and (x / 2) (y / 2) = omega (arith, bit_and-halves x y) in
    rw half (bit-bit_and (x / 2) (y / 2) i)

pub bit-bit_or : (x y i : ℕ) → bit (bit_or x y) i ≡ max (bit x i) (bit y i)
unfolding bit
bit-bit_or x y zero = omega (arith, bit_or-halves x y)
bit-bit_or x y (suc i) =
    let half : bit_or x y / 2 ≡ bit_or (x / 2) (y / 2) = omega (arith, bit_or-halves x y) in
    rw half (bit-bit_or (x / 2) (y / 2) i)

-- Below `2 ^ k` the digits from `k` on are 0, and the others decide the number.
bit_above : (k x i : ℕ) → x < 2 ^ k → k ≤ i → bit x i ≡ 0
unfolding bit
bit_above zero x i h le = let e : x ≡ 0 = omega arith in rw e (bit-zero i)
bit_above (suc k) x zero h le = absurd (omega arith)
bit_above (suc k) x (suc i) h le = bit_above k (x / 2) i (omega (arith, pow-suc 2 k)) (omega arith)

ext_below : (k x y : ℕ) → x < 2 ^ k → y < 2 ^ k → ((i : ℕ) → bit x i ≡ bit y i) → x ≡ y
ext_below zero x y p q h = omega arith
ext_below (suc k) x y p q h =
    let halves : x / 2 ≡ y / 2 =
      ext_below k (x / 2) (y / 2) (omega (arith, pow-suc 2 k)) (omega (arith, pow-suc 2 k))
        (λ i. unfold bit in h (suc i)) in
    let last : x % 2 ≡ y % 2 = unfold bit in h 0 in omega arith

pub word_ext : (x y : ℕ) → IsWord x → IsWord y → ((i : ℕ) → bit x i ≡ bit y i) → x ≡ y
word_ext = ext_below 32

-- The complement flips every bit of a word.
flip_below : (k x i : ℕ) → x < 2 ^ k → i < k → bit (2 ^ k - 1 - x) i ≡ 1 - bit x i
unfolding bit
flip_below zero x i h lt = absurd (omega arith)
flip_below (suc k) x zero h lt = omega (arith, pow-suc 2 k)
flip_below (suc k) x (suc i) h lt =
    let half : (2 ^ suc k - 1 - x) / 2 ≡ 2 ^ k - 1 - x / 2 = omega (arith, pow-suc 2 k) in
    rw half (flip_below k (x / 2) i (omega (arith, pow-suc 2 k)) (omega arith))

pub bit-complement : (x i : ℕ) → IsWord x → i < 32 → bit (complement x) i ≡ 1 - bit x i
unfolding complement
bit-complement x i = flip_below 32 x i

pub complement-IsWord : (x : ℕ) → IsWord (complement x)
unfolding complement
complement-IsWord x = omega arith

pub bit_above_word : (x i : ℕ) → IsWord x → 32 ≤ i → bit x i ≡ 0
bit_above_word x i = bit_above 32 x i

or_below : (k x y : ℕ) → x < 2 ^ k → y < 2 ^ k → bit_or x y < 2 ^ k
or_below zero x y p q =
    let ex : x ≡ 0 = omega arith in let ey : y ≡ 0 = omega arith in rw (ex, ey) (omega arith)
or_below (suc k) x y p q = omega (
  arith,
  pow-suc 2 k,
  bit_or-halves x y,
  or_below k (x / 2) (y / 2) (omega (arith, pow-suc 2 k)) (omega (arith, pow-suc 2 k)),
)

pub bit_or-IsWord : (x y : ℕ) → IsWord x → IsWord y → IsWord (bit_or x y)
bit_or-IsWord = or_below 32

and_below : (k x y : ℕ) → x < 2 ^ k → bit_and x y < 2 ^ k
and_below zero x y p = let e : x ≡ 0 = omega arith in rw (e, zero-bit_and y) (omega arith)
and_below (suc k) x y p = omega (
  arith,
  pow-suc 2 k,
  bit_and-halves x y,
  and_below k (x / 2) (y / 2) (omega (arith, pow-suc 2 k)),
)

pub bit_and-IsWord : (x y : ℕ) → IsWord x → IsWord (bit_and x y)
bit_and-IsWord = and_below 32
