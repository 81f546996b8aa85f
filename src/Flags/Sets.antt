-- ===== src/Flags/Sets.antt =====
-- `mcr_flags_has`, `mcr_flags_add` and `mcr_flags_remove` are inclusion, union and difference.
use libmacro.Prelude.{ℕ, ◌-◌, ◌≤◌, max, bit_and, ◌≡◌, ◌↔◌, true, arith, ==_iff}
use libmacro.Word.{
  bit, complement, IsWord, Subset, Disjoint, bit-le-one, bit-bit_or, bit_and-eq-right,
  bit_or-IsWord, bit_and-IsWord, bit-bit_and-complement, word_ext,
}
use libmacro.Flags.{flags_add, flags_has, flags_remove}

pub flags_has_iff :
    (flags m : ℕ) → IsWord flags → IsWord m → (flags_has flags m ≡ true) ↔ Subset m flags
unfolding flags_has
flags_has_iff flags m wf wm =
    let test = ==_iff (bit_and flags m) m in
    let sets = bit_and-eq-right flags m wf wm in (λ h. sets.0 (test.0 h), λ s. test.1 (sets.1 s))

pub flags_remove-IsWord : (flags d : ℕ) → IsWord flags → IsWord (flags_remove flags d)
unfolding flags_remove
flags_remove-IsWord flags d w = bit_and-IsWord flags (complement d) w

pub bit-flags_remove :
    (flags d i : ℕ) → IsWord flags → IsWord d → bit (flags_remove flags d) i ≡ bit flags i - bit d i
unfolding flags_remove
bit-flags_remove flags d i wf wd = bit-bit_and-complement flags d i wf wd

pub bit-flags_add : (flags m i : ℕ) → bit (flags_add flags m) i ≡ max (bit flags i) (bit m i)
unfolding flags_add
bit-flags_add flags m i = bit-bit_or flags m i

pub flags_add-IsWord : (flags m : ℕ) → IsWord flags → IsWord m → IsWord (flags_add flags m)
unfolding flags_add
flags_add-IsWord flags m wf wm = bit_or-IsWord flags m wf wm

-- On words, after an addition the flags have a mask exactly when each of its bits was there or was
-- added, and after a removal exactly when they had the mask and none of it was removed.
pub flags_has-add-remove :
    (flags m d : ℕ)
    → IsWord flags
    → IsWord m
    → IsWord d
    → ((flags_has (flags_add flags d) m ≡ true) ↔ ((i : ℕ) → bit m i ≤ max (bit flags i) (bit d i)))
      × ((flags_has (flags_remove flags d) m ≡ true) ↔ ((flags_has flags m ≡ true) × Disjoint m d))
flags_has-add-remove flags m d wf wm wd =
    let added = flags_has_iff (flags_add flags d) m (flags_add-IsWord flags d wf wd) wm in
    let removed = flags_has_iff (flags_remove flags d) m (flags_remove-IsWord flags d wf) wm in
    let old = flags_has_iff flags m wf wm in
    (
      (
        λ h i. omega (arith, added.0 h i, bit-flags_add flags d i),
        λ s. added.1 (λ i. omega (arith, s i, bit-flags_add flags d i)),
      ),
      (
        λ h. (
          old.1 (λ i. omega (arith, removed.0 h i, bit-flags_remove flags d i wf wd)),
          λ i. omega (
            arith,
            removed.0 h i,
            bit-flags_remove flags d i wf wd,
            bit-le-one flags i,
            bit-le-one d i,
            bit-le-one m i,
          ),
        ),
        λ p. removed.1 (λ i. omega (
          arith,
          old.0 p.0 i,
          p.1 i,
          bit-flags_remove flags d i wf wd,
          bit-le-one d i,
          bit-le-one m i,
        )),
      ),
    )

-- On words, adding a disjoint set of flags and removing it again restores the flags.
pub flags_remove-add :
    (flags m : ℕ)
    → IsWord flags
    → IsWord m
    → Disjoint flags m
    → flags_remove (flags_add flags m) m ≡ flags
flags_remove-add flags m wf wm d =
    let wa = flags_add-IsWord flags m wf wm in
    word_ext _ flags (flags_remove-IsWord (flags_add flags m) m wa) wf (λ i. omega (
      arith,
      bit-flags_remove (flags_add flags m) m i wa wm,
      bit-flags_add flags m i,
      d i,
      bit-le-one flags i,
      bit-le-one m i,
    ))
