-- ===== src/Dispatcher/Order.antt =====
-- The walk over the unordered set of receivers, where its order does not matter.
use libmacro.Prelude.{
  ℕ, ◌≡◌, ◌⊎◌, inl, inr, refl, sym, ap, ◌∙◌, List, [], ◌∷◌, Bool, true, false, not, ◌==◌, ◌&&◌,
  ◌||◌, if◌then◌else◌, arith, has, without, IsSetList, has-without, count-without, count_pos,
  Bool-cases, ==_iff,
}
use libmacro.Dispatcher.{Dispatcher, dispatch_loop, dispatch}
use libmacro.Dispatcher.Receivers.{IsWellFormed}
use libmacro.Dispatcher.Dispatch.{call_all}

-- The two lists have the same members.
abbrev pub SameMembers : List ℕ → List ℕ → Type 0
SameMembers xs ys = (r : ℕ) → has r xs ≡ has r ys

-- Whether some receiver of the list that is not null blocks
abbrev pub some_blocks : (ℕ → Bool) → List ℕ → Bool
some_blocks blocks [] = false
some_blocks blocks (r ∷ rs) = (not (r == 0) && blocks r) || some_blocks blocks rs

no_member : (ys : List ℕ) → ((r : ℕ) → has r ys ≡ false) → ys ≡ []
no_member [] h = refl
no_member (y ∷ ys) h = let e = h y in absurd (ground arith)

without_absent : (x : ℕ) (ys : List ℕ) → has x ys ≡ false → without x ys ≡ ys
without_absent x [] h = refl
without_absent x (y ∷ ys) h = ground (arith, without_absent x ys)

without-IsSetList : (x : ℕ) (ys : List ℕ) → IsSetList ys → IsSetList (without x ys)
without-IsSetList x ys once r = omega (arith, once r, count-without x r ys)

-- A set without the head of another with the same members has the members of its tail.
tail_members :
    (x : ℕ) (xs ys : List ℕ)
    → IsSetList (x ∷ xs)
    → SameMembers (x ∷ xs) ys
    → SameMembers xs (without x ys)
tail_members x xs ys once same r =
    let e = same r in
    let c = once x in let p = count_pos x xs in rw (has-without x r ys) (ground arith)

tail_once : (x : ℕ) (xs : List ℕ) → IsSetList (x ∷ xs) → IsSetList xs
tail_once x xs once r = let c = once r in ground arith

some_blocks-without :
    (blocks : ℕ → Bool) (x : ℕ) (ys : List ℕ)
    → some_blocks blocks ys
      ≡ ((has x ys && not (x == 0) && blocks x) || some_blocks blocks (without x ys))
some_blocks-without blocks x [] = ground arith
some_blocks-without blocks x (y ∷ ys) = elim (Bool-cases (y == x)) [
  | inl same ↦ let e = (==_iff y x).0 same in rw e (ground (arith, some_blocks-without blocks x ys))
  | inr other ↦ ground (arith, some_blocks-without blocks x ys)
]

some_blocks-SameMembers :
    (blocks : ℕ → Bool) (xs ys : List ℕ)
    → IsSetList xs
    → SameMembers xs ys
    → some_blocks blocks xs ≡ some_blocks blocks ys
some_blocks-SameMembers blocks [] ys once same = rw (no_member ys (λ r. sym (same r))) refl
some_blocks-SameMembers blocks (x ∷ xs) ys once same =
    let rest =
      some_blocks-SameMembers blocks xs (without x ys) (tail_once x xs once)
        (tail_members x xs ys once same) in
    let e = same x in rw (some_blocks-without blocks x ys) (ground arith)

module _ {ℓ} {S : Type ℓ} (receive : ℕ → ℕ → ℕ → S → Bool × S) (signal mods : ℕ) where
  abbrev after_call : ℕ → S → S
  after_call r s = if r == 0 then s else (receive r signal mods s).1

  -- It does not matter which of two receivers is called first.
  abbrev pub Commutes : Type ℓ
  Commutes =
      (q r : ℕ) (s : S)
      → (receive r signal mods (receive q signal mods s).1).1
        ≡ (receive q signal mods (receive r signal mods s).1).1

  module _ (commutes : Commutes) where
    after_call_comm :
        (q r : ℕ) (s : S) → after_call r (after_call q s) ≡ after_call q (after_call r s)
    after_call_comm q r s = ground (arith, commutes q r s)

    call_all-without :
        (x : ℕ) (ys : List ℕ) (s : S)
        → IsSetList ys
        → has x ys ≡ true
        → call_all receive signal mods ys s
          ≡ call_all receive signal mods (without x ys) (after_call x s)
    call_all-without x [] s once h = cc
    call_all-without x (y ∷ ys) s once h = elim (Bool-cases (y == x)) [
      | inl same ↦
          let e = (==_iff y x).0 same in
          let alone : has x ys ≡ false =
            let c = once x in
            let p = count_pos x ys in
            elim (Bool-cases (has x ys)) [
              | inl found ↦ let q = p found in absurd (ground arith)
              | inr lost ↦ lost
            ] in
          simp (same, without_absent x ys alone)
            (ap (λ r. call_all receive signal mods ys (after_call r s)) e)
      | inr other ↦
          let found : has x ys ≡ true = ground arith in
          simp other (
            call_all-without x ys (after_call y s) (tail_once y ys once) found
            ∙ ap (call_all receive signal mods (without x ys)) (after_call_comm y x s))
    ]

    call_all-SameMembers :
        (xs ys : List ℕ) (s : S)
        → IsSetList xs
        → IsSetList ys
        → SameMembers xs ys
        → call_all receive signal mods xs s ≡ call_all receive signal mods ys s
    call_all-SameMembers [] ys s once once' same = rw (no_member ys (λ r. sym (same r))) refl
    call_all-SameMembers (x ∷ xs) ys s once once' same =
        let found : has x ys ≡ true = let e = same x in ground arith in
        call_all-SameMembers xs (without x ys) (after_call x s) (tail_once x xs once)
          (without-IsSetList x ys once') (tail_members x xs ys once same)
        ∙ sym (call_all-without x ys s once' found)

  module _ (blocks : ℕ → Bool)
      (answers : (r : ℕ) (s : S) → (receive r signal mods s).0 ≡ blocks r) where
    pub loop_answer :
        (rs : List ℕ) (s : S) → (dispatch_loop receive rs signal mods s).0 ≡ some_blocks blocks rs
    unfolding dispatch_loop
    loop_answer [] s = refl
    loop_answer (r ∷ rs) s =
        ground (arith, answers r s, loop_answer rs s, loop_answer rs (receive r signal mods s).1)

    loop_calls_all :
        (rs : List ℕ) (s : S)
        → some_blocks blocks rs ≡ false
        → dispatch_loop receive rs signal mods s ≡ (false, call_all receive signal mods rs s)
    unfolding dispatch_loop
    loop_calls_all [] s h = refl
    loop_calls_all (r ∷ rs) s h =
        ground
          (arith, answers r s, loop_calls_all rs s, loop_calls_all rs (receive r signal mods s).1)

    -- If whether a receiver blocks does not depend on the state and the calls of receivers
    -- commute, two dispatchers with the same receivers, each once, in any order, give the same
    -- answer, and leave the same state unless that is to block.
    pub dispatch_unordered :
        (d e : Dispatcher) (s : S)
        → Commutes
        → IsWellFormed d
        → IsWellFormed e
        → SameMembers d.receivers e.receivers
        → ((dispatch receive d signal mods s).0 ≡ (dispatch receive e signal mods s).0)
          × (((dispatch receive d signal mods s).0 ≡ true)
              ⊎ (dispatch receive d signal mods s ≡ dispatch receive e signal mods s))
    unfolding dispatch
    dispatch_unordered d e s commutes once once' same =
        let b = some_blocks-SameMembers blocks d.receivers e.receivers once same in
        (
          loop_answer d.receivers s ∙ b ∙ sym (loop_answer e.receivers s),
          elim (Bool-cases (some_blocks blocks d.receivers)) [
            | inl blocked ↦ inl (loop_answer d.receivers s ∙ blocked)
            | inr free ↦ inr (
                loop_calls_all d.receivers s free
                ∙ ap (λ t. (false, t))
                    (call_all-SameMembers commutes d.receivers e.receivers s once once' same)
                ∙ sym (loop_calls_all e.receivers s (sym b ∙ free)))
          ],
        )
