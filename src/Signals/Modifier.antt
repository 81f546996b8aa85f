-- ===== src/Signals/Modifier.antt =====
-- mcr/signal/modifier.h and src/signal/modifier.cpp: the signal that edits the context's modifiers.
use libmacro.Prelude.{
  ℕ, ◌-◌, max, bit_and, bit_or, ◌≡◌, ◌⊎◌, inl, inr, ◌==◌, if◌then◌else◌, arith, Bool-cases, ==_iff,
}
use libmacro.Types.{ApplyValue, apply_value, set, unset, both, toggle}
use libmacro.Word.{
  bit, complement, IsWord, Subset, Disjoint, bit-le-one, bit-bit_or, bit_or-IsWord, bit_and-IsWord,
  bit-bit_and-complement, bit_and-eq-right, word_ext,
}

-- The fields of `Modifier`, without the pointer to the context
pub record Modifier : Type 0 where
  pub modifiers : ℕ
  pub apply : ℕ

abbrev pub new_modifier : Modifier
new_modifier = record { modifiers = 0; apply = apply_value set }

-- `Modifier::send`, from the modifiers of the context to the new ones. An `apply` that the
-- `switch` does not name changes nothing.
unfoldable pub send : Modifier → ℕ → ℕ
send m mods =
    if m.apply == apply_value set
    then bit_or mods m.modifiers
    else if m.apply == apply_value unset
    then bit_and mods (complement m.modifiers)
    else if m.apply == apply_value both
    then bit_and mods (complement m.modifiers)
    else if m.apply == apply_value toggle
    then (if bit_and mods m.modifiers == m.modifiers
        then bit_and mods (complement m.modifiers)
        else bit_or mods m.modifiers)
    else mods

-- The new set of flags has the bits of both.
abbrev pub Joined : ℕ → ℕ → ℕ → Type 0
Joined m old new = (i : ℕ) → bit new i ≡ max (bit old i) (bit m i)

-- The new set of flags has the old bits without those of `m`.
abbrev pub Cleared : ℕ → ℕ → ℕ → Type 0
Cleared m old new = (i : ℕ) → bit new i ≡ bit old i - bit m i

-- What each value of `apply` means.
abbrev pub Effect : ApplyValue → ℕ → ℕ → ℕ → Type 0
Effect set m old new = Joined m old new
Effect unset m old new = Cleared m old new
Effect both m old new = Cleared m old new
Effect toggle m old new = (Subset m old × Cleared m old new) ⊎ ((¬ Subset m old) × Joined m old new)

abbrev pub modifier_of : ApplyValue → ℕ → Modifier
modifier_of a m = record { modifiers = m; apply = apply_value a }

-- On words, a modifier signal adds its flags for MCR_SET, clears them for MCR_UNSET and MCR_BOTH,
-- and for MCR_TOGGLE clears them if all are set and adds them otherwise.
pub send-Effect :
    (a : ApplyValue) (m mods : ℕ)
    → IsWord m
    → IsWord mods
    → Effect a m mods (send (modifier_of a m) mods)
unfolding send
send-Effect set m mods wm w = λ i. bit-bit_or mods m i
send-Effect unset m mods wm w = λ i. bit-bit_and-complement mods m i w wm
send-Effect both m mods wm w = λ i. bit-bit_and-complement mods m i w wm
send-Effect toggle m mods wm w = elim (Bool-cases (bit_and mods m == m)) [
  | inl all ↦ rw all (
      inl (
        (bit_and-eq-right mods m w wm).0 ((==_iff _ m).0 all),
        λ i. bit-bit_and-complement mods m i w wm,
      ))
  | inr some_missing ↦ rw some_missing (
      inr (
        λ s.
            let e = (==_iff (bit_and mods m) m).1 ((bit_and-eq-right mods m w wm).1 s) in
            cc (e, some_missing),
        λ i. bit-bit_or mods m i,
      ))
]

pub send-IsWord :
    (m : Modifier) (mods : ℕ) → IsWord m.modifiers → IsWord mods → IsWord (send m mods)
unfolding send
send-IsWord m mods wm w =
    ground (arith, bit_or-IsWord mods m.modifiers, bit_and-IsWord mods (complement m.modifiers))

-- On words, toggling twice restores the modifiers if all or none of the flags were set.
pub toggle_twice :
    (m mods : ℕ)
    → IsWord m
    → IsWord mods
    → Subset m mods ⊎ Disjoint m mods
    → send (modifier_of toggle m) (send (modifier_of toggle m) mods) ≡ mods
toggle_twice m mods wm w uniform =
    word_ext _ mods (send-IsWord again once wm w1) w (agree first second uniform)
  where
    again : Modifier
    again = modifier_of toggle m

    once : ℕ
    once = send again mods

    w1 : IsWord once
    w1 = send-IsWord again mods wm w

    first : Effect toggle m mods once
    first = send-Effect toggle m mods wm w

    second : Effect toggle m once (send again once)
    second = send-Effect toggle m once wm w1

    agree :
        Effect toggle m mods once
        → Effect toggle m once (send again once)
        → Subset m mods ⊎ Disjoint m mods
        → (i : ℕ) → bit (send again once) i ≡ bit mods i
    agree (inl (s, c)) (inl (t, d)) u i =
        omega (arith, c i, t i, d i, bit-le-one mods i, bit-le-one m i)
    agree (inl (s, c)) (inr (t, j)) u i =
        omega (arith, s i, c i, j i, bit-le-one mods i, bit-le-one m i)
    agree (inr (n, j)) e (inl s) i = absurd (n s)
    agree (inr (n, j)) (inl (t, c)) (inr d) i =
        omega (arith, j i, c i, d i, bit-le-one mods i, bit-le-one m i)
    agree (inr (n, j)) (inr (k, l)) (inr d) i = absurd (k (λ a. omega (arith, j a)))
