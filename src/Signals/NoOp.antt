-- ===== src/Signals/NoOp.antt =====
-- mcr/signal/noop.h and src/signal/noop.cpp: the signal that waits.
use libmacro.Prelude.{ℕ, zero, suc, ◌+◌, ◌*◌, ◌≡◌, ◌↔◌, List, [], ◌∷◌, ◌++◌, refl, arith}
use libmacro.Prelude.Int.{ℤ, pos, negsuc, pos_part}

-- The fields of `NoOp`
pub record NoOp : Type 0 where
  pub seconds : ℤ
  pub milliseconds : ℤ

abbrev pub new_noop : NoOp
new_noop = record { seconds = pos 0; milliseconds = pos 20 }

-- `if (n) sleep_for(milliseconds(n));`: the waits, in milliseconds
sleep_for : ℤ → List ℤ
sleep_for (pos zero) = []
sleep_for (pos (suc n)) = pos (suc n) ∷ []
sleep_for (negsuc n) = negsuc n ∷ []

-- `NoOp::send`. Both fields are handed over as milliseconds.
unfoldable pub send : NoOp → List ℤ
unfolding sleep_for
send n = sleep_for n.seconds ++ sleep_for n.milliseconds

-- The milliseconds that a row of waits takes.
abbrev pub slept : List ℤ → ℕ
slept [] = 0
slept (t ∷ ts) = pos_part t + slept ts

-- What the comment of the class says of the wait: so many seconds and milliseconds.
abbrev pub documented : NoOp → ℕ
documented n = 1000 * pos_part n.seconds + pos_part n.milliseconds

slept-sleep_for : (t : ℤ) (ts : List ℤ) → slept (sleep_for t ++ ts) ≡ pos_part t + slept ts
unfolding sleep_for
slept-sleep_for (pos zero) ts = omega arith
slept-sleep_for (pos (suc n)) ts = refl
slept-sleep_for (negsuc n) ts = refl

slept-sleep_for_last : (t : ℤ) → slept (sleep_for t) ≡ pos_part t
unfolding sleep_for
slept-sleep_for_last (pos zero) = refl
slept-sleep_for_last (pos (suc n)) = omega arith
slept-sleep_for_last (negsuc n) = omega arith

-- A `NoOp` waits for the sum of its two fields in milliseconds, a negative one counting as 0, which
-- is the documented time exactly when `seconds` is not positive.
pub slept-send :
    (n : NoOp)
    → (slept (send n) ≡ pos_part n.seconds + pos_part n.milliseconds)
      × ((slept (send n) ≡ documented n) ↔ (pos_part n.seconds ≡ 0))
slept-send n = (total, (λ h. omega (arith, total), λ h. omega (arith, total)))
  where
    total : slept (send n) ≡ pos_part n.seconds + pos_part n.milliseconds
    total =
        unfold send in
        omega (
          arith,
          slept-sleep_for n.seconds (sleep_for n.milliseconds),
          slept-sleep_for_last n.milliseconds,
        )
