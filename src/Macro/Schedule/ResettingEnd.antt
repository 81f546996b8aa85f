-- ===== src/Macro/Schedule/ResettingEnd.antt =====
-- An INTERRUPT_ALL comes to its end, and what it leaves.
use libmacro.Prelude.{
  ℕ, ◌+◌, ◌*◌, ◌^◌, ◌<◌, ◌≤◌, ◌≡◌, ◌≢◌, ◌∙◌, ◌⊎◌, inl, inr, ap, sym, subst, refl, Bool-cases, true,
  ◌==◌, if◌then◌else◌, arith, ==_iff,
}
use libmacro.Types.{Interrupt, continue, interrupt_all}
use libmacro.Macro.State.{Macro, Globals, is_disable}
use libmacro.Macro.Threads.{dequeue}
use libmacro.Macro.Control.{interrupt_locked}
use libmacro.Macro.Schedule.{System, Turn, Reach, initial, macro_set}
use libmacro.Macro.Schedule.Places.{total, made_at, inside_at, is_consuming}
use libmacro.Macro.Schedule.Ending.{weight}
use libmacro.Macro.Schedule.ClearingEnd.{ways_on, begun-IsClearing}
use libmacro.Macro.Schedule.ResettingKept.{
  IsPlain, IsResetting, IsReset, reset_cost, still_all, ResetSteps-Holds,
}
use libmacro.Macro.Schedule.ResettingLate.{Past, ResetSteps-NoneLate}
use libmacro.Macro.Schedule.Resetting.{
  ResetPhase, noting, stopping, asking, clearing, within, judging, comparing, setting, over, Resets,
  ResetSteps,
}

-- A thread can move, or the call can go on.
abbrev pub ResetGoesOn : ResetPhase → System → Type 0
ResetGoesOn q t = ((u : System) × Turn t u) ⊎ ((u : System) × (r : ResetPhase) × Resets t q u r)

next_step :
    (v : Interrupt) (m : Macro) (q : ResetPhase) (t : System)
    → IsResetting v (dequeue interrupt_all m) q t
    → ResetGoesOn q t
next_step v m noting t i = inr (_, _, Resets.notes)
next_step v m (stopping prev) t i = inr (_, _, Resets.stops)
next_step v m (asking prev) t i = elim (Bool-cases (t.shared.macro.thread_count == 0)) [
  | inl zero_now ↦ inr (_, _, Resets.asks_none (ground arith))
  | inr some_now ↦ inr (_, _, Resets.asks_some (ground arith))
]
next_step v m (clearing prev) t i = inr (_, _, Resets.clears)
next_step v m (within prev q) t i =
    elim (ways_on interrupt_all (dequeue interrupt_all m) q t i.stopped) [
      | inl (inl moves) ↦ inl moves
      | inl (inr (u, r, c)) ↦ inr (u, within prev r, Resets.goes_on c)
      | inr (inl lost) ↦ absurd (subst IsPlain lost i.under_way.1)
      | inr (inr ended) ↦ inr (
        t,
        judging prev,
        subst (λ p. Resets t (within prev p) t (judging prev)) (sym ended) Resets.cleared,
      )
    ]
next_step v m (judging prev) t i = elim (Bool-cases (is_disable prev)) [
  | inl off ↦ inr (_, _, Resets.stays_off off)
  | inr on ↦ inr (_, _, Resets.continues on)
]
next_step v m comparing t i =
    inr (_, _, Resets.changes (λ e. let f = still_all m i.stopped in cc (e, f)))
next_step v m setting t i = inr (_, _, Resets.sets)
next_step v m over t i = absurd i.under_way

-- After any steps the call or a thread goes on, or the call has reset the macro.
comes_to_end :
    (v : Interrupt) (m : Macro) (p : ResetPhase) (s t : System) (n : ℕ) (q : ResetPhase)
    → IsResetting v (dequeue interrupt_all m) p s
    → Past p (total inside_at s.places)
    → ResetSteps s p n t q
    → (n ≤ reset_cost p s)
      × (ResetGoesOn q t
          ⊎ ((q ≡ over)
              × IsReset v (dequeue interrupt_all m) t
              × ((total made_at s.places ≢ 0) ⊎ (t.shared.macro.thread_count ≡ 0))))
comes_to_end v m p s t n q i past steps =
    let (holds, bound) = ResetSteps-Holds v m steps i in
    (
      omega (arith, bound),
      elim holds [
        | inl j ↦ inl (next_step v m q t j)
        | inr (ended, reset, counts) ↦ inr (
          ended,
          reset,
          elim (Bool-cases (total made_at s.places == 0)) [
            | inr late ↦ inl (ground arith)
            | inl none_late ↦
                let (_, past_now) =
                  ResetSteps-NoneLate v m steps i
                    ((==_iff (total made_at s.places) 0).0 none_late, past) in
                inr (counts.counted ∙ subst (λ r. Past r (total inside_at t.places)) ended past_now)
          ],
        )
      ],
    )

-- In a system reached from a macro without threads, under a global limit below 2 ^ 32 with no more
-- slots taken than there are, in which no thread is about to end an INTERRUPT, once a reset thread
-- has read the interruptor and emptied the queue with INTERRUPT_ALL, it and the threads together
-- make at most four times as many steps as the places and signals weigh, and nine; after any of
-- them, in any order, a thread can move or the reset thread can go on, or that has ended, the queue
-- is empty, the macro is in INTERRUPT_ALL if it was disabled when it was read, and in CONTINUE
-- otherwise, and is as it was but for its threads, and either a thread was waiting to be counted
-- then or none is counted now.
pub reset_ends :
    (m : Macro) (g : Globals) (s t : System) (n : ℕ) (q : ResetPhase)
    → m.thread_count ≡ 0
    → g.active ≤ g.thread_limit
    → g.thread_limit < 2 ^ 32
    → Reach (initial m g) s
    → total is_consuming s.places ≡ 0
    → let prev = s.shared.macro.interruptor in
      ResetSteps (macro_set (dequeue interrupt_all s.shared.macro) s) (asking prev) n t q
      → (n ≤ 4 * weight s + 9)
        × (ResetGoesOn q t
            ⊎ ((q ≡ over)
                × (t.shared.macro ≡ record (s.shared.macro) {
                  queued = 0;
                  interruptor = if is_disable prev then interrupt_all else continue;
                  thread_count = t.shared.macro.thread_count;
                  threads = t.shared.macro.threads;
                })
                × ((total made_at s.places ≢ 0) ⊎ (t.shared.macro.thread_count ≡ 0))))
unfolding dequeue
reset_ends m g s t n q idle few narrow r none_there steps =
    let base = s.shared.macro in
    let first = begun-IsClearing m g s interrupt_all true idle few narrow r refl none_there in
    comes_to_end base.interruptor base (asking base.interruptor)
      (macro_set (dequeue interrupt_all base) s) t n q
      (record { stopped = first; under_way = refl }) tt steps

pressed_running :
    (m : Macro)
    → m.thread_count ≢ 0
    → interrupt_locked interrupt_all m ≡ (true, dequeue interrupt_all m)
unfolding interrupt_locked dequeue
pressed_running m busy = ground arith

-- In a system reached from a macro without threads, under a global limit below 2 ^ 32 with no more
-- slots taken than there are, in which a thread is counted and none is about to end an INTERRUPT,
-- INTERRUPT_ALL has a reset thread detached; it and the threads together make at most four times as
-- many steps as the places and signals weigh, and eleven; after any of them, in any order, a thread
-- can move or the reset thread can go on, or that has ended and left the macro in CONTINUE with an
-- empty queue and otherwise as it was but for its threads, and either a thread was waiting to be
-- counted at the interrupt or none is counted now.
pub interrupt_all_ends :
    (m : Macro) (g : Globals) (s t : System) (n : ℕ) (q : ResetPhase)
    → m.thread_count ≡ 0
    → g.active ≤ g.thread_limit
    → g.thread_limit < 2 ^ 32
    → Reach (initial m g) s
    → total is_consuming s.places ≡ 0
    → s.shared.macro.thread_count ≢ 0
    → ResetSteps (macro_set (interrupt_locked interrupt_all s.shared.macro).1 s) noting n t q
    → ((interrupt_locked interrupt_all s.shared.macro).0 ≡ true)
      × (n ≤ 4 * weight s + 11)
      × (ResetGoesOn q t
          ⊎ ((q ≡ over)
              × (t.shared.macro ≡ record (s.shared.macro) {
                queued = 0;
                interruptor = continue;
                thread_count = t.shared.macro.thread_count;
                threads = t.shared.macro.threads;
              })
              × ((total made_at s.places ≢ 0) ⊎ (t.shared.macro.thread_count ≡ 0))))
unfolding dequeue
interrupt_all_ends m g s t n q idle few narrow r none_there busy steps =
    let base = s.shared.macro in
    let first = begun-IsClearing m g s interrupt_all true idle few narrow r refl none_there in
    let pressed = pressed_running base busy in
    let steps' =
      subst (λ x. ResetSteps (macro_set x s) noting n t q) (ap (λ x. x.1) pressed) steps in
    let (bound, ends) =
      comes_to_end interrupt_all base noting (macro_set (dequeue interrupt_all base) s) t n q
        (record { stopped = first; under_way = refl }) tt steps' in
    (ap (λ x. x.0) pressed, bound, ends)
