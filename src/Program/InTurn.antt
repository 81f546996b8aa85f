-- ===== src/Program/InTurn.antt =====
-- The interrupts of some macros in turn, and what they leave of the program.
use libmacro.Prelude.{
  ℕ, ◌+◌, ◌≡◌, ◌≢◌, ◌∙◌, ap, sym, subst, refl, List, [], ◌∷◌, Bool, true, false, not, ◌==◌, ◌&&◌,
  if◌then◌else◌, arith, count, Bool-cases, inl, inr, has, IsSetList, ==_iff, ==_refl, count_pos,
}
use libmacro.Types.{Interrupt, interrupt_all}
use libmacro.Error.{ok}
use libmacro.Registry.Macros.{in_turn}
use libmacro.Macro.State.{Macro, running}
use libmacro.Macro.Dispatching.Removal.{NotNull}
use libmacro.Macro.Control.{same_interrupt}
use libmacro.Macro.Control.Interrupting.{interrupted}
use libmacro.Program.{Program, interrupt_macro}
use libmacro.Program.Interrupts.{interrupt_macro_total, interrupt_macro_same, after_interrupt}

-- A macro at an address that can be interrupted without a null pointer
pub record IsInterruptible (c : ℕ) (m : Macro) : Type 0 where
  pub real : c ≢ 0
  pub real_context : m.context ≢ 0
  pub real_triggers : NotNull m.triggers

-- A macro after `interrupt`, which does nothing if it has the value already
abbrev pub interrupted_once : Interrupt → Macro → Macro
interrupted_once v m = if same_interrupt v m.interruptor then m else interrupted v m

-- An interrupt of the macro detaches a thread that resets it.
abbrev pub detaches : Interrupt → Macro → Bool
detaches v m = not (same_interrupt v m.interruptor) && (same_interrupt v interrupt_all && running m)

-- What an interrupt of one macro leaves of the program
record IsInterruptedAt (v : Interrupt) (b : ℕ) (p q : Program) : Type 0 where
  this_one : q.library.macro_of b ≡ interrupted_once v (p.library.macro_of b)
  others : (c : ℕ) → (b == c) ≡ false → q.library.macro_of c ≡ p.library.macro_of c
  same_signals : q.signal_of ≡ p.signal_of
  resetting : q.resets ≡ (if detaches v (p.library.macro_of b) then b ∷ p.resets else p.resets)

interrupt_one :
    (v : Interrupt) (b : ℕ) (p : Program)
    → IsInterruptible b (p.library.macro_of b)
    → (q : Program) × (interrupt_macro v b p ≡ ok q) × IsInterruptedAt v b p q
interrupt_one v b p i =
    let m = p.library.macro_of b in
    elim (Bool-cases (same_interrupt v m.interruptor)) [
      | inl same ↦ (
        p,
        interrupt_macro_same v b p same,
        record {
          this_one = simp same refl;
          others = λ c other. refl;
          same_signals = refl;
          resetting = simp same refl;
        },
      )
      | inr new ↦
          let (h, again, e) =
            interrupt_macro_total v b p i.real_context i.real i.real_triggers new in
          (
            after_interrupt v b p h,
            e,
            record {
              this_one = simp (new, ==_refl b) refl;
              others = λ c other. simp other refl;
              same_signals = refl;
              resetting = simp new refl;
            },
          )
    ]

interrupted_setup :
    (v : Interrupt) (c : ℕ) (m : Macro)
    → IsInterruptible c m
    → IsInterruptible c (interrupted_once v m)
interrupted_setup v c m i = elim (Bool-cases (same_interrupt v m.interruptor)) [
  | inl same ↦ rw same i
  | inr new ↦
      rw new
        (record { real = i.real; real_context = i.real_context; real_triggers = i.real_triggers })
]

-- What the interrupts of some macros leave of the program
abbrev pub AllInterrupted : Interrupt → List ℕ → Program → Program → Type 0
AllInterrupted v bs p q =
    ((c : ℕ)
      → q.library.macro_of c
        ≡ (if has c bs then interrupted_once v (p.library.macro_of c) else p.library.macro_of c))
    × (q.signal_of ≡ p.signal_of)
    × ((c : ℕ)
        → count c q.resets
          ≡ count c p.resets + (if has c bs && detaches v (p.library.macro_of c) then 1 else 0))

listed_once : (b : ℕ) (bs : List ℕ) → IsSetList (b ∷ bs) → has b bs ≡ false
listed_once b bs once = elim (Bool-cases (has b bs)) [
  | inl again ↦ let o = once b in let more = count_pos b bs again in absurd (ground arith)
  | inr alone ↦ alone
]

distinct_from : (b c : ℕ) (bs : List ℕ) → has b bs ≡ false → has c bs ≡ true → (b == c) ≡ false
distinct_from b c bs alone there = elim (Bool-cases (b == c)) [
  | inl same ↦ let e = (==_iff b c).0 same in absurd (cc (e, alone, there))
  | inr other ↦ other
]

pub interrupt_all_of :
    (v : Interrupt) (bs : List ℕ) (p : Program)
    → IsSetList bs
    → ((c : ℕ) → has c bs ≡ true → IsInterruptible c (p.library.macro_of c))
    → (q : Program) × (in_turn (interrupt_macro v) bs p ≡ ok q) × AllInterrupted v bs p q
interrupt_all_of v [] p once ready = (p, refl, (λ c. refl, refl, λ c. omega arith))
interrupt_all_of v (b ∷ bs) p once ready =
    let i = ready b (ground arith) in
    let (q, e, one) = interrupt_one v b p i in
    let alone = listed_once b bs once in
    let (r, f, (all, signals, resets)) =
      interrupt_all_of v bs q (λ c. let o = once c in ground arith)
        (λ c there.
          let other = distinct_from b c bs alone there in
          subst (IsInterruptible c) (sym (one.others c other)) (ready c (ground arith))) in
    let null : (b == 0) ≡ false = let real = i.real in ground arith in
    (
      r,
      simp (null, e) f,
      (
        λ c. elim (Bool-cases (b == c)) [
          | inl this_one ↦
              let same = (==_iff b c).0 this_one in
              rw (this_one, sym same) (all b ∙ simp alone one.this_one)
          | inr another ↦ rw (another, sym (one.others c another)) (all c)
        ],
        signals ∙ one.same_signals,
        λ c. elim (Bool-cases (b == c)) [
          | inl this_one ↦
              let same = (==_iff b c).0 this_one in
              let last = resets c in
              let first = one.resetting in
              let once_only : has c bs ≡ false = rw (sym same) alone in
              let at_b : p.library.macro_of b ≡ p.library.macro_of c = ap p.library.macro_of same in
              ground (arith, last, first, once_only, at_b)
          | inr another ↦
              let last = resets c in
              let first = one.resetting in
              let stays = one.others c another in
              rw (another, sym stays) (ground (arith, last, first))
        ],
      ),
    )
