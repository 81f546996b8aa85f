-- ===== src/Serial/Counts.antt =====
-- The loop that counts the bits of the last flag.
use native.Mathlib.Nat.{pow-suc}
use libmacro.Prelude.{
  ℕ, zero, suc, ◌+◌, ◌/◌, ◌^◌, ◌≤◌, ◌<◌, ◌≡◌, ap, some, ◌==◌, arith, inl, inr, Bool-cases, ==_iff,
}
use libmacro.Serial.Impl.{shift_count}

-- From a positive flag below 2 ^ fuel the loop that counts shifts ends and adds the place of the
-- highest set bit to its counter.
pub shift_count_log :
    (fuel flag ret : ℕ)
    → 0 < flag
    → flag < 2 ^ fuel
    → (k : ℕ) × (shift_count fuel flag ret ≡ some (ret + k)) × (2 ^ k ≤ flag) × (flag < 2 ^ (suc k))
unfolding shift_count
shift_count_log zero flag ret pos lt = absurd (omega arith)
shift_count_log (suc fuel) flag ret pos lt = elim (Bool-cases (flag / 2 == 0)) [
  | inl last ↦
      let e = (==_iff (flag / 2) 0).0 last in
      (0, rw last (ap some (omega arith)), omega arith, omega arith)
  | inr more ↦
      let (k, e, lo, hi) =
        shift_count_log fuel (flag / 2) (ret + 1) (ground arith) (omega (arith, pow-suc 2 fuel)) in
      (
        suc k,
        rw (more, e) (ap some (omega arith)),
        omega (arith, pow-suc 2 k),
        omega (arith, pow-suc 2 (suc k)),
      )
]
