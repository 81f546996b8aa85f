-- ===== src/Macro/Schedule/ResettingLate.antt =====
-- Where no thread is waiting to be counted, none is left inside once the reset thread has looked.
use libmacro.Prelude.{ℕ, ◌+◌, ◌≤◌, ◌≡◌, ◌∙◌, inl, inr, ap, sym, refl, arith, All, List, [], ◌∷◌}
use libmacro.Types.{Interrupt, Interrupt, interrupt_all}
use libmacro.Macro.State.{Macro}
use libmacro.Macro.Threads.{dequeue}
use libmacro.Macro.Schedule.{Shared, System, Place, Move, Turn, turn}
use libmacro.Macro.Schedule.Places.{total, total_one, made_at, inside_at}
use libmacro.Macro.Schedule.Clearing.{Phase, IsGone, Clears}
use libmacro.Macro.Schedule.ResettingKept.{IsResetting, returned, ResetSteps-Holds}
use libmacro.Macro.Schedule.Resetting.{
  ResetPhase, noting, stopping, asking, clearing, within, judging, comparing, setting, over, Resets,
  ResetSteps, no_step, by_thread, by_reset,
}

abbrev Fewer : Place → Place → Type 0
Fewer p q = (made_at q ≤ made_at p) × (made_at q + inside_at q ≤ made_at p + inside_at p)

Move-Fewer : {s t : Shared} {p q : Place} → Move s p t q → Fewer p q
Move-Fewer Move.enter = (omega arith, omega arith)
Move-Fewer (Move.preamble_interrupted h) = (omega arith, omega arith)
Move-Fewer (Move.preamble_free h) = (omega arith, omega arith)
Move-Fewer (Move.no_signals h) = (omega arith, omega arith)
Move-Fewer (Move.some_signals h) = (omega arith, omega arith)
Move-Fewer (Move.pauses h) = (omega arith, omega arith)
Move-Fewer (Move.goes_on h) = (omega arith, omega arith)
Move-Fewer (Move.resumes h) = (omega arith, omega arith)
Move-Fewer (Move.loop_interrupted h) = (omega arith, omega arith)
Move-Fewer (Move.loop_free h) = (omega arith, omega arith)
Move-Fewer Move.consume = (omega arith, omega arith)
Move-Fewer (Move.stops h) = (omega arith, omega arith)
Move-Fewer (Move.decides h) = (omega arith, omega arith)
Move-Fewer (Move.is_idle h) = (omega arith, omega arith)
Move-Fewer (Move.is_busy h) = (omega arith, omega arith)
Move-Fewer (Move.leaves h) = (omega arith, omega arith)
Move-Fewer (Move.stays h) = (omega arith, omega arith)
Move-Fewer Move.takes = (omega arith, omega arith)
Move-Fewer (Move.breaks h) = (omega arith, omega arith)
Move-Fewer (Move.skips h n) = (omega arith, omega arith)
Move-Fewer (Move.passes h) = (omega arith, omega arith)
Move-Fewer Move.sends = (omega arith, omega arith)
Move-Fewer Move.throws = (omega arith, omega arith)
Move-Fewer Move.all_sent = (omega arith, omega arith)
Move-Fewer Move.complete = (omega arith, omega arith)
Move-Fewer Move.release = (omega arith, omega arith)

-- Past the test of `running()` no thread is inside.
abbrev pub Past : ResetPhase → ℕ → Type 0
Past (judging prev) n = n ≡ 0
Past comparing n = n ≡ 0
Past setting n = n ≡ 0
Past over n = n ≡ 0
Past _ n = Unit

Past-less : (q : ResetPhase) {n k : ℕ} → k ≤ n → Past q n → Past q k
Past-less noting l h = tt
Past-less (stopping prev) l h = tt
Past-less (asking prev) l h = tt
Past-less (clearing prev) l h = tt
Past-less (within prev q) l h = tt
Past-less (judging prev) l h = omega arith
Past-less comparing l h = omega arith
Past-less setting l h = omega arith
Past-less over l h = omega arith

-- No thread is waiting to be counted, and past the test none is inside.
abbrev pub NoneLate : ResetPhase → System → Type 0
NoneLate q t = (total made_at t.places ≡ 0) × Past q (total inside_at t.places)

Turn-NoneLate : (q : ResetPhase) {t u : System} → Turn t u → NoneLate q t → NoneLate q u
Turn-NoneLate q (turn {here} {there} before after e m) (none_made, past) =
    let (a, b) = Move-Fewer m in
    let made = ap (total made_at) e ∙ total_one made_at before after here in
    let made' = total_one made_at before after there in
    let inside = ap (total inside_at) e ∙ total_one inside_at before after here in
    let inside' = total_one inside_at before after there in
    (
      omega (arith, a, made, made', none_made),
      Past-less q (omega (arith, a, b, made, made', none_made, inside, inside')) past,
    )

Clears-places :
    {v : Interrupt} {s t : System} {q r : Phase} → Clears v s q t r → t.places ≡ s.places
Clears-places (Clears.sees_none h) = refl
Clears-places (Clears.sees_some h) = refl
Clears-places Clears.empties = refl
Clears-places (Clears.wakes h) = refl
Clears-places (Clears.goes_round h) = refl
Clears-places (Clears.leaves_loop h) = refl
Clears-places (Clears.sees_none_again h) = refl
Clears-places (Clears.sees_late h) = refl
Clears-places (Clears.wakes_once h) = refl
Clears-places (Clears.joins all) = refl

gone_outside : (ps : List Place) → All IsGone ps → total inside_at ps ≡ 0
gone_outside [] v = refl
gone_outside (p ∷ ps) (e, v) = omega (arith, ap inside_at e, gone_outside ps v)

Resets-NoneLate :
    {v : Interrupt} {base : Macro} {q r : ResetPhase} {t u : System}
    → Resets t q u r
    → IsResetting v base q t
    → NoneLate q t
    → NoneLate r u
Resets-NoneLate Resets.notes i (made, past) = (made, tt)
Resets-NoneLate Resets.stops i (made, past) = (made, tt)
Resets-NoneLate (Resets.asks_none h) i (made, past) = (made, sym (i.stopped).counts.counted ∙ h)
Resets-NoneLate (Resets.asks_some h) i (made, past) = (made, tt)
Resets-NoneLate Resets.clears i (made, past) = (made, tt)
Resets-NoneLate (Resets.goes_on c) i (made, past) =
    (ap (total made_at) (Clears-places c) ∙ made, tt)
Resets-NoneLate {t = t} Resets.cleared i (made, past) =
    (made, gone_outside t.places ((i.stopped).at_end.0))
Resets-NoneLate (Resets.stays_off h) i (made, past) = (made, past)
Resets-NoneLate (Resets.continues h) i (made, past) = (made, past)
Resets-NoneLate (Resets.unchanged h) i (made, past) = (made, past)
Resets-NoneLate (Resets.changes h) i (made, past) = (made, past)
Resets-NoneLate Resets.sets i (made, past) = (made, past)

pub ResetSteps-NoneLate :
    (v : Interrupt) (m : Macro) {p : ResetPhase} {s : System} {q : ResetPhase} {t : System} {n : ℕ}
    → ResetSteps s p n t q
    → IsResetting v (dequeue interrupt_all m) p s
    → NoneLate p s
    → NoneLate q t
ResetSteps-NoneLate v m no_step i none = none
ResetSteps-NoneLate v m (by_thread {q = q} r going h) i none =
    Turn-NoneLate q h (ResetSteps-NoneLate v m r i none)
ResetSteps-NoneLate v m (by_reset r h) i none = elim (ResetSteps-Holds v m r i).0 [
  | inl j ↦ Resets-NoneLate h j (ResetSteps-NoneLate v m r i none)
  | inr (ended, _, _) ↦ absurd (returned h ended)
]
