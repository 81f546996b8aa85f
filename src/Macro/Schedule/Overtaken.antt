-- ===== src/Macro/Schedule/Overtaken.antt =====
-- An INTERRUPT_ALL that comes between the start of a thread and its entry in `runPreamble`.
use libmacro.Prelude.{ℕ, ◌^◌, ◌<◌, ◌≡◌, ◌∙◌, ap, sym, subst, refl, [], ◌∷◌, true, false, arith}
use libmacro.Types.{continue, interrupt_all}
use libmacro.Macro.State.{Macro, Globals}
use libmacro.Macro.Dispatching.{is_empty}
use libmacro.Macro.Threads.Limits.{IsLimited}
use libmacro.Macro.Control.{interrupt_locked}
use libmacro.Macro.Run.{up}
use libmacro.Macro.Pool.{with_threads}
use libmacro.Macro.Schedule.{
  Shared, System, Move, with_macro, Reach, initial, macro_set, fresh, entered, sending,
}
use libmacro.Macro.Schedule.Ending.{Turns}
use libmacro.Macro.Schedule.Moves.{
  Moves, none_made, then_move, Moves-trans, Moves-Turns, with_thread,
}
use libmacro.Macro.Schedule.Bursts.{none_started, many_starts}
use libmacro.Macro.Schedule.Crowds.{to_deciding, emptied}

none_to_reset : (m : Macro) → m.thread_count ≡ 0 → (interrupt_locked interrupt_all m).0 ≡ false
unfolding interrupt_locked
none_to_reset m idle = ground arith

pressed_idle :
    (m : Macro) → m.thread_count ≡ 0 → (interrupt_locked interrupt_all m).1.thread_count ≡ 0
unfolding interrupt_locked
pressed_idle m idle = ground arith

-- The only thread of a sticky macro in CONTINUE enters, finds the queue empty, and stays for a pass.
stays_on :
    (s : Shared)
    → s.macro.interruptor ≡ continue
    → s.macro.thread_count ≡ 0
    → s.macro.queued ≡ 0
    → s.macro.sticky ≡ true
    → is_empty s.macro.signals ≡ false
    → (t : Shared) × Moves s fresh t (sending s.macro.signals)
stays_on s going idle none_queued stays some =
    let inside : Shared = with_macro (with_threads (up s.macro.thread_count) s.macro) s in
    let enters : Moves s fresh inside entered = then_move none_made Move.enter in
    let decides = Moves-trans enters (to_deciding inside going some) in
    (
      inside,
      then_move (then_move decides (Move.is_idle none_queued))
          (Move.stays (ground (arith, idle, stays))),
    )

-- From a sticky macro with signals, within its limits, in CONTINUE and without threads, where a
-- global slot is free, under a global limit below 2 ^ 32, a system is reached in which one thread
-- has been made and not yet counted, and in which INTERRUPT_ALL has no reset thread made, and after
-- which the thread's own moves bring it to a pass over all signals.
pub interrupt_all_lost :
    (m : Macro) (g : Globals)
    → IsLimited g.thread_limit m
    → m.interruptor ≡ continue
    → m.thread_count ≡ 0
    → m.sticky ≡ true
    → is_empty m.signals ≡ false
    → g.active < g.thread_limit
    → g.thread_limit < 2 ^ 32
    → (s : System) × Reach (initial m g) s
      × (s.places ≡ fresh ∷ [])
      × ((interrupt_locked interrupt_all s.shared.macro).0 ≡ false)
      × ((j : ℕ) × (t : System) × Turns
            (macro_set (interrupt_locked interrupt_all s.shared.macro).1 s)
            j
            t
          × (t.places ≡ sending m.signals ∷ []))
interrupt_all_lost m g limited going idle stays some free narrow =
    let (s, r, v) = many_starts m g 1 (none_started m g limited going idle) (omega arith) in
    let (none_queued, calm, same_sticky, same_signals) = emptied s.shared.macro v.none_counted in
    let pressed : System = macro_set (interrupt_locked interrupt_all s.shared.macro).1 s in
    let (t, moves) =
      stays_on pressed.shared calm (pressed_idle s.shared.macro v.none_counted) none_queued
        (same_sticky ∙ v.same_sticky ∙ stays)
        (ap is_empty (same_signals ∙ v.same_signals) ∙ some) in
    let (j, turns) = Moves-Turns [] [] pressed.others moves in
    let started =
      subst
        (λ ps.
          Turns (record pressed { places = ps }) j
            (with_thread [] [] s.others t (sending pressed.shared.macro.signals)))
        (sym v.all_fresh) turns in
    let first =
      subst (λ ss. Turns pressed j (with_thread [] [] s.others t (sending ss)))
        (same_signals ∙ v.same_signals) started in
    (s, r, v.all_fresh, none_to_reset s.shared.macro v.none_counted, (j, _, first, refl))
