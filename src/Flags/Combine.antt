-- ===== src/Flags/Combine.antt =====
-- `mcr_flags_combine` is the union of the array's flag sets.
use libmacro.Prelude.{
  ℕ, zero, suc, ◌≤◌, ◌<◌, bit_or, ◌≡◌, ◌≢◌, ◌⊎◌, inl, inr, some, arith, refl, ◌↔◌,
}
use libmacro.Word.{bit, IsWord, bit-le-one, bit-zero, bit-bit_or, bit_or-IsWord}
use libmacro.Flags.{no_index, combine_loop, flags_combine}
use native.Mathlib.Decide.{ℕ_discrete}

loop-keeps : (flags : ℕ → ℕ) (n ret i : ℕ) → bit ret i ≤ bit (combine_loop flags n ret) i
unfolding combine_loop
loop-keeps flags zero ret i = omega arith
loop-keeps flags (suc n) ret i =
    omega (arith, bit-bit_or ret (flags n) i, loop-keeps flags n (bit_or ret (flags n)) i)

loop-covers :
    (flags : ℕ → ℕ) (n ret i j : ℕ) → j < n → bit (flags j) i ≤ bit (combine_loop flags n ret) i
unfolding combine_loop
loop-covers flags zero ret i j h = absurd (omega arith)
loop-covers flags (suc n) ret i j h = elim (ℕ_discrete j n) [
  | yes e ↦
      rw e (omega (arith, bit-bit_or ret (flags n) i, loop-keeps flags n (bit_or ret (flags n)) i))
  | no ne ↦ loop-covers flags n (bit_or ret (flags n)) i j (omega arith)
]

-- Where a bit of the loop's result comes from.
abbrev Source : (ℕ → ℕ) → ℕ → ℕ → Type 0
Source flags n i = (j : ℕ) × (j < n) × (bit (flags j) i ≡ 1)

loop-Source :
    (flags : ℕ → ℕ) (n ret i : ℕ)
    → bit (combine_loop flags n ret) i ≡ 1
    → (bit ret i ≡ 1) ⊎ Source flags n i
unfolding combine_loop
loop-Source flags zero ret i h = inl h
loop-Source flags (suc n) ret i h = elim (loop-Source flags n (bit_or ret (flags n)) i h) [
  | inl e ↦ elim (ℕ_discrete (bit ret i) 1) [
    | yes old ↦ inl old
    | no new ↦ inr (n, omega arith, omega (arith, bit-bit_or ret (flags n) i, e, bit-le-one ret i))
  ]
  | inr (j, lt, e) ↦ inr (j, omega arith, e)
]

loop-IsWord :
    (flags : ℕ → ℕ) (n ret : ℕ)
    → ((j : ℕ) → j < n → IsWord (flags j))
    → IsWord ret
    → IsWord (combine_loop flags n ret)
unfolding combine_loop
loop-IsWord flags zero ret h w = w
loop-IsWord flags (suc n) ret h w =
    loop-IsWord flags n (bit_or ret (flags n)) (λ j lt. h j (omega arith))
      (bit_or-IsWord ret (flags n) w (h n (omega arith)))

combine-loop :
    (flags : ℕ → ℕ) (n : ℕ) → n ≢ no_index → flags_combine (some flags) n ≡ combine_loop flags n 0
unfolding flags_combine combine_loop
combine-loop flags zero h = refl
combine-loop flags (suc n) h = ground arith

from_zero : (flags : ℕ → ℕ) (n i : ℕ) → (bit 0 i ≡ 1) ⊎ Source flags n i → Source flags n i
from_zero flags n i (inl e) = absurd (omega (arith, bit-zero i))
from_zero flags n i (inr s) = s

to_loop : (flags : ℕ → ℕ) (n i : ℕ) → Source flags n i → bit (combine_loop flags n 0) i ≡ 1
to_loop flags n i (j, lt, e) =
    omega (arith, loop-covers flags n 0 i j lt, bit-le-one (combine_loop flags n 0) i)

-- For any length but the error index and an array of words, `mcr_flags_combine` is a word that has
-- exactly the bits of the first elements of the array.
pub flags_combine_union :
    (flags : ℕ → ℕ) (n i : ℕ)
    → n ≢ no_index
    → ((j : ℕ) → j < n → IsWord (flags j))
    → IsWord (flags_combine (some flags) n)
      × ((bit (flags_combine (some flags) n) i ≡ 1) ↔ ((j : ℕ) × (j < n) × (bit (flags j) i ≡ 1)))
flags_combine_union flags n i h words = rw (combine-loop flags n h) (
  loop-IsWord flags n 0 words (omega arith),
  (λ e. from_zero flags n i (loop-Source flags n 0 i e), to_loop flags n i),
)
