-- ===== src/Dispatcher/Dispatch.antt =====
-- Which receivers a dispatch calls, and what it returns.
use libmacro.Prelude.{
  ℕ, ◌≡◌, ◌≢◌, ◌⊎◌, inl, inr, refl, ap, List, [], ◌∷◌, ◌++◌, Bool, true, false, ◌==◌, if◌then◌else◌,
  arith, Bool-cases, ==_iff,
}
use libmacro.Dispatcher.{Dispatcher, dispatch_loop, dispatch}

module _ {ℓ} {S : Type ℓ} (receive : ℕ → ℕ → ℕ → S → Bool × S) (signal mods : ℕ) where
  -- The state after each receiver that is not null has been called in turn.
  abbrev pub call_all : List ℕ → S → S
  call_all [] s = s
  call_all (r ∷ rs) s = call_all rs (if r == 0 then s else (receive r signal mods s).1)

  -- None of them blocks, each asked in the state that those before it leave.
  abbrev pub Passes : List ℕ → S → Type 0
  Passes [] s = Unit
  Passes (r ∷ rs) s =
      ((r ≡ 0) ⊎ ((receive r signal mods s).0 ≡ false))
      × Passes rs (if r == 0 then s else (receive r signal mods s).1)

  -- The first receiver that blocks, and what stands before and after it.
  pub record Blocked (rs : List ℕ) (s : S) (result : Bool × S) : Type ℓ where
    pub before : List ℕ
    pub blocker : ℕ
    pub after : List ℕ
    pub order : rs ≡ before ++ blocker ∷ after
    pub not_null : blocker ≢ 0
    pub passed : Passes before s
    pub blocks : receive blocker signal mods (call_all before s) ≡ result
    pub blocked : result.0 ≡ true

  -- Where all pass, every receiver was called; else those up to the first that blocks.
  abbrev pub Outcome : List ℕ → S → Bool × S → Type ℓ
  Outcome rs s result = (Passes rs s × (result ≡ (false, call_all rs s))) ⊎ Blocked rs s result

module _ {ℓ} {S : Type ℓ} (receive : ℕ → ℕ → ℕ → S → Bool × S) (signal mods : ℕ) where
  abbrev after_call : ℕ → S → S
  after_call r s = if r == 0 then s else (receive r signal mods s).1

  abbrev PassesOne : ℕ → S → Type 0
  PassesOne r s = (r ≡ 0) ⊎ ((receive r signal mods s).0 ≡ false)

  loop_pass :
      (r : ℕ) (rs : List ℕ) (s : S)
      → PassesOne r s
      → dispatch_loop receive (r ∷ rs) signal mods s
        ≡ dispatch_loop receive rs signal mods (after_call r s)
  unfolding dispatch_loop
  loop_pass r rs s p = ground arith

  loop_block :
      (r : ℕ) (rs : List ℕ) (s : S)
      → r ≢ 0
      → (receive r signal mods s).0 ≡ true
      → dispatch_loop receive (r ∷ rs) signal mods s ≡ receive r signal mods s
  unfolding dispatch_loop
  loop_block r rs s n b = ground arith

  Outcome-cons :
      (r : ℕ) (rs : List ℕ) (s : S) (result : Bool × S)
      → PassesOne r s
      → Outcome receive signal mods rs (after_call r s) result
      → Outcome receive signal mods (r ∷ rs) s result
  Outcome-cons r rs s result p (inl (q, e)) = inl ((p, q), e)
  Outcome-cons r rs s result p (inr b) = inr (record {
    before = r ∷ b.before;
    blocker = b.blocker;
    after = b.after;
    order = ap (λ l. r ∷ l) b.order;
    not_null = b.not_null;
    passed = (p, b.passed);
    blocks = b.blocks;
    blocked = b.blocked;
  })

  loop-Outcome :
      (rs : List ℕ) (s : S)
      → Outcome receive signal mods rs s (dispatch_loop receive rs signal mods s)
  loop-Outcome [] s = unfold dispatch_loop in inl (tt, refl)
  loop-Outcome (r ∷ rs) s = elim (Bool-cases (r == 0)) [
    | inl null ↦
        let p : PassesOne r s = inl ((==_iff r 0).0 null) in
        rw (loop_pass r rs s p) (Outcome-cons r rs s _ p (loop-Outcome rs (after_call r s)))
    | inr object ↦ elim (Bool-cases (receive r signal mods s).0) [
      | inr passes ↦
          let p : PassesOne r s = inr passes in
          rw (loop_pass r rs s p) (Outcome-cons r rs s _ p (loop-Outcome rs (after_call r s)))
      | inl blocks ↦
          let n : r ≢ 0 = ground arith in
          rw (loop_block r rs s n blocks) (
            inr (record {
              before = [];
              blocker = r;
              after = rs;
              order = refl;
              not_null = n;
              passed = tt;
              blocks = refl;
              blocked = blocks;
            }))
    ]
  ]

  -- A dispatch asks the receivers that are not null in the order of the walk, each in the state
  -- that those before it left; either none blocks, all were called and the result is false, or
  -- the first that blocks was the last called and the result is true.
  pub dispatch-Outcome :
      (d : Dispatcher) (s : S)
      → Outcome receive signal mods d.receivers s (dispatch receive d signal mods s)
  unfolding dispatch
  dispatch-Outcome d s = loop-Outcome d.receivers s

  -- A dispatcher with one receiver that is not null asks that one.
  pub dispatch_one :
      (d : Dispatcher) (r : ℕ) (s : S)
      → d.receivers ≡ r ∷ []
      → r ≢ 0
      → dispatch receive d signal mods s ≡ receive r signal mods s
  unfolding dispatch dispatch_loop
  dispatch_one d r s one real = rw one (ground arith)

  -- A relation that no receiver leaves, where steps of it can be put together, holds between the
  -- states before and after a dispatch.
  module _ {κ} (R : S → S → Type κ) (stays : (s : S) → R s s)
      (together : (s t u : S) → R s t → R t u → R s u)
      (calls : (r : ℕ) (s : S) → R s (receive r signal mods s).1) where
    loop_related : (rs : List ℕ) (s : S) → R s (dispatch_loop receive rs signal mods s).1
    unfolding dispatch_loop
    loop_related [] s = stays s
    loop_related (r ∷ rs) s = elim (Bool-cases (r == 0)) [
      | inl null ↦ rw null (loop_related rs s)
      | inr object ↦ rw object (elim (Bool-cases (receive r signal mods s).0) [
        | inl blocks ↦ rw blocks (calls r s)
        | inr passes ↦
            rw passes (together _ _ _ (calls r s) (loop_related rs (receive r signal mods s).1))
      ])
    ]

    pub dispatch_related : (d : Dispatcher) (s : S) → R s (dispatch receive d signal mods s).1
    unfolding dispatch
    dispatch_related d s = loop_related d.receivers s
