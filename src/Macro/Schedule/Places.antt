-- ===== src/Macro/Schedule/Places.antt =====
-- Numbers attached to the places of threads, and their sums over all threads.
use libmacro.Prelude.{
  ℕ, ◌+◌, ◌≡◌, ◌≢◌, ◌⊎◌, inl, inr, ◌==◌, Bool-cases, ap, List, [], ◌∷◌, ◌++◌, refl, arith, length,
}
use libmacro.Macro.Schedule.{
  Place, fresh, entered, ready, head, consuming, testing, deciding, lingering, taking, delivering,
  pausing, waiting, completing, leaving, gone, sending,
}

abbrev pub total : (Place → ℕ) → List Place → ℕ
total w [] = 0
total w (p ∷ ps) = w p + total w ps

pub total-append :
    (w : Place → ℕ) (ps qs : List Place) → total w (ps ++ qs) ≡ total w ps + total w qs
total-append w [] qs = omega arith
total-append w (p ∷ ps) qs = omega (arith, total-append w ps qs)

-- The sum over all but one thread
abbrev pub rest : (Place → ℕ) → List Place → List Place → ℕ
rest w before after = total w before + total w after

pub total_one :
    (w : Place → ℕ) (before after : List Place) (p : Place)
    → total w (before ++ p ∷ after) ≡ w p + rest w before after
total_one w before after p = omega (arith, total-append w before (p ∷ after))

-- The thread has not been counted yet.
abbrev pub made_at : Place → ℕ
made_at fresh = 1
made_at _ = 0

-- The thread holds a global slot, and is no longer counted by the macro.
abbrev pub leaving_at : Place → ℕ
leaving_at leaving = 1
leaving_at _ = 0

-- The thread is counted by the macro.
abbrev pub inside_at : Place → ℕ
inside_at fresh = 0
inside_at leaving = 0
inside_at gone = 0
inside_at _ = 1

-- A bound on the moves that a thread still makes in a macro that is stopped, with the number of the
-- macro's signals.
abbrev pub rank : ℕ → Place → ℕ
rank signals fresh = 9
rank signals entered = 8
rank signals ready = 7
rank signals (sending ss) = length ss + 7
rank signals deciding = signals + 9
rank signals lingering = signals + 8
rank signals taking = signals + 8
rank signals (delivering a ss) = length ss + 8
rank signals pausing = 6
rank signals waiting = 6
rank signals head = 5
rank signals testing = 4
rank signals consuming = 3
rank signals completing = 2
rank signals leaving = 1
rank signals gone = 0

-- The thread is about to let the macro continue.
abbrev pub is_consuming : Place → ℕ
is_consuming consuming = 1
is_consuming _ = 0

-- The thread is about to send a signal.
abbrev pub is_delivering : Place → ℕ
is_delivering (delivering a ss) = 1
is_delivering _ = 0

-- A sum that is not 0 has a part that is not.
pub total-split :
    (w : Place → ℕ) (ps : List Place)
    → (total w ps ≡ 0)
      ⊎ ((before : List Place) × (p : Place) × (after : List Place) × (ps ≡ before ++ p ∷ after)
          × (w p ≢ 0))
total-split w [] = inl refl
total-split w (p ∷ ps) = elim (Bool-cases (w p == 0)) [
  | inr some_here ↦ inr ([], p, ps, refl, ground arith)
  | inl none_here ↦ elim (total-split w ps) [
    | inl none_there ↦ inl (ground arith)
    | inr (before, q, after, e, n) ↦ inr (p ∷ before, q, after, ap (λ l. p ∷ l) e, n)
  ]
]
