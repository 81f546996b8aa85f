-- ===== src/Macro/Schedule/Crowds.antt =====
-- Many threads that test the same fields, one after the other, before any of them changes one: what
-- the loop of `run` reads and what it does then are apart.
use libmacro.Prelude.{
  ℕ, suc, zero, ◌+◌, ◌^◌, ◌<◌, ◌≤◌, ◌≡◌, ◌∙◌, ap, subst, refl, List, ◌++◌, true, false, arith, min,
}
use mathlib.Core.List.{append-nil}
use libmacro.Types.{continue, pause, interrupt, interrupt_all}
use libmacro.Macro.State.{Macro, Globals}
use libmacro.Macro.Dispatching.{is_empty}
use libmacro.Macro.Threads.{dec_queued}
use libmacro.Macro.Threads.Limits.{IsLimited}
use libmacro.Macro.Control.{same_interrupt, interrupt_locked}
use libmacro.Macro.Run.{up, at_least}
use libmacro.Macro.Pool.{with_threads}
use libmacro.Macro.Pool.Counts.{threads_bounded}
use libmacro.Macro.Schedule.{
  Shared, System, Place, Move, Call, Reach, called, initial, macro_set, with_macro, fresh, entered,
  deciding, taking, completing, sending,
}
use libmacro.Macro.Schedule.Places.{total, inside_at}
use libmacro.Macro.Schedule.Refinement.{pool_of, schedule_refines}
use libmacro.Macro.Schedule.Ending.{Turns, no_turn, one_more, dec_queued-SameControl}
use libmacro.Macro.Schedule.Settling.{Turns-Reach}
use libmacro.Macro.Schedule.Moves.{Moves, none_made, then_move, Moves-Turns}
use libmacro.Macro.Schedule.Bursts.{copies, copies-middle, none_started, many_starts, turn_each}

Turns-trans : {s t u : System} {n k : ℕ} → Turns s n t → Turns t k u → (j : ℕ) × Turns s j u
Turns-trans {n = n} a no_turn = (n, a)
Turns-trans a (one_more b m) = let (j, c) = Turns-trans a b in (suc j, one_more c m)

abbrev crowd : Shared → ℕ → List Place → System
crowd s others places = record { shared = s; places = places; others = others }

-- If a thread can go from one place to another and leave the shared state as it was, all can.
each_from :
    (s : Shared) (p q : Place) (others : ℕ)
    → Moves s p s q
    → (n before k : ℕ) (o : System) → Turns o k (crowd s others (copies before q ++ copies n p))
    → (j : ℕ) × Turns o j (crowd s others (copies (before + n) q))
each_from s p q others path zero before k o turns = (
  k,
  subst (λ ps. Turns o k (crowd s others ps))
      (append-nil (copies before q) ∙ ap (λ b. copies b q) (omega arith)) turns,
)
each_from s p q others path (suc n) before k o turns =
    let (i, one) = Moves-Turns (copies before q) (copies n p) others path in
    let (j, moved) = Turns-trans turns one in
    let next =
      subst (λ ps. Turns o j (crowd s others ps)) (copies-middle before q (copies n p)) moved in
    let (l, all) = each_from s p q others path n (suc before) j o next in
    (l, subst (λ b. Turns o l (crowd s others (copies b q))) (omega arith) all)

all_along :
    (p q : Place) (n : ℕ) (s : System)
    → Moves s.shared p s.shared q
    → s.places ≡ copies n p
    → (j : ℕ) × Turns s j (record s { places = copies n q })
all_along p q n s path e =
    let (j, turns) =
      each_from s.shared p q s.others path n 0 0 s
        (subst (λ ps. Turns s 0 (crowd s.shared s.others ps)) e no_turn) in
    (j, subst (λ b. Turns s j (crowd s.shared s.others (copies b q))) (omega arith) turns)

total-copies : (n : ℕ) → total inside_at (copies n entered) ≡ n
total-copies zero = refl
total-copies (suc n) = omega (arith, total-copies n)

-- Threads that have been made enter one after the other, and are all counted.
all_enter :
    (m : Macro) (g : Globals) (n : ℕ) (s : System)
    → m.thread_count ≡ 0
    → g.active ≤ g.thread_limit
    → g.thread_limit < 2 ^ 32
    → Reach (initial m g) s
    → s.places ≡ copies n fresh
    → (t : System) × Reach (initial m g) t
      × (t.places ≡ copies n entered)
      × (t.shared.macro ≡ with_threads n s.shared.macro)
all_enter m g n s idle few narrow r e =
    let kept : Shared → Type 0 = λ x. x.macro ≡ with_threads x.macro.thread_count s.shared.macro in
    let (j, t, turns, same, inside) =
      turn_each kept fresh entered
        (λ x h. (_, Move.enter, ap (with_threads (up x.macro.thread_count)) h)) n 0 s s no_turn refl
        e in
    let r' = Turns-Reach r turns in
    let counts = threads_bounded m g (pool_of t) idle few narrow (schedule_refines m g t r') in
    let counted = counts.counted ∙ ap (total inside_at) inside ∙ total-copies n in
    (t, r', inside, same ∙ ap (λ c. with_threads c s.shared.macro) counted)

-- In CONTINUE a thread with signals comes to the test of the queue.
pub to_deciding :
    (s : Shared)
    → s.macro.interruptor ≡ continue
    → is_empty s.macro.signals ≡ false
    → Moves s entered s deciding
to_deciding s going some =
    let calm = ap (λ v. same_interrupt v interrupt) going in
    then_move
      (then_move
        (then_move
          (then_move (then_move none_made (Move.preamble_free calm)) (Move.some_signals some))
          (Move.goes_on (ap (λ v. same_interrupt v pause) going)))
        (Move.loop_free calm))
      (Move.decides (ap (λ v. at_least v interrupt_all) going))

-- An INTERRUPT_ALL before any thread is counted
pub emptied :
    (m : Macro)
    → m.thread_count ≡ 0
    → let m' = (interrupt_locked interrupt_all m).1 in
      (m'.queued ≡ 0)
      × (m'.interruptor ≡ continue)
      × (m'.sticky ≡ m.sticky)
      × (m'.signals ≡ m.signals)
unfolding interrupt_locked
emptied m idle = (ground arith, ground arith, ground arith, ground arith)

-- From a sticky macro with signals, within its limits, in CONTINUE and without threads, under a
-- global limit below 2 ^ 32, and for any number of free global slots above 1, a system in CONTINUE
-- is reached in which so many threads have just been counted, and from which the threads' own moves
-- alone bring all of them to `onRunComplete` without any change of what they share: none stays, and
-- none sends a signal.
pub sticky_lost :
    (m : Macro) (g : Globals) (n : ℕ)
    → IsLimited g.thread_limit m
    → m.interruptor ≡ continue
    → m.thread_count ≡ 0
    → m.sticky ≡ true
    → is_empty m.signals ≡ false
    → 1 < n
    → g.active + n ≤ g.thread_limit
    → g.thread_limit < 2 ^ 32
    → (s : System) × Reach (initial m g) s
      × (s.places ≡ copies n entered)
      × (s.shared.macro.sticky ≡ true)
      × (s.shared.macro.interruptor ≡ continue)
      × ((j : ℕ) × (t : System) × Turns s j t
          × (t.shared ≡ s.shared)
          × (t.places ≡ copies n completing))
sticky_lost m g n limited going idle stays some two room narrow =
    let (s0, r0, v) = many_starts m g n (none_started m g limited going idle) room in
    let (none_queued, calm, same_sticky, same_signals) = emptied s0.shared.macro v.none_counted in
    let cleared : System = macro_set (interrupt_locked interrupt_all s0.shared.macro).1 s0 in
    let (s, r, inside, same) =
      all_enter m g n cleared idle (omega (arith, room)) narrow
        (called r0 (Call.interrupts interrupt_all)) v.all_fresh in
    let sticky_now = ap (λ x. x.sticky) same ∙ same_sticky ∙ v.same_sticky ∙ stays in
    let going_now = ap (λ x. x.interruptor) same ∙ calm in
    let some_now =
      ap (λ x. is_empty x.signals) same ∙ ap is_empty (same_signals ∙ v.same_signals) ∙ some in
    let count = ap (λ x. x.thread_count) same in
    let path =
      then_move
        (then_move (to_deciding s.shared going_now some_now)
          (Move.is_idle (ap (λ x. x.queued) same ∙ none_queued)))
        (Move.leaves (ground (arith, count, two))) in
    let (j, turns) = all_along entered completing n s path inside in
    (s, r, inside, sticky_now, going_now, (j, _, turns, refl, refl))

-- From a macro with signals, within its limits, in CONTINUE and without threads, under a global
-- limit below 2 ^ 32, and for any positive number of free global slots, a system is reached in
-- which so many threads are counted, whatever the thread limit of the macro, while the runs queued
-- stop at that limit, and from which the threads' own moves bring each of them to a pass over all
-- signals.
pub queue_shared :
    (m : Macro) (g : Globals) (n : ℕ)
    → IsLimited g.thread_limit m
    → m.interruptor ≡ continue
    → m.thread_count ≡ 0
    → is_empty m.signals ≡ false
    → 0 < n
    → g.active + n ≤ g.thread_limit
    → g.thread_limit < 2 ^ 32
    → (s : System) × Reach (initial m g) s
      × (s.places ≡ copies n entered)
      × (s.shared.macro.thread_count ≡ n)
      × (s.shared.macro.queued ≡ min (m.queued + n) m.thread_max)
      × ((j : ℕ) × (t : System) × Turns s j t × (t.places ≡ copies n (sending m.signals)))
queue_shared m g n limited going idle some one room narrow =
    let (s0, r0, v) = many_starts m g n (none_started m g limited going idle) room in
    let (s, r, inside, same) =
      all_enter m g n s0 idle (omega (arith, room)) narrow r0 v.all_fresh in
    let going_now = ap (λ x. x.interruptor) same ∙ v.going in
    let signals_now = ap (λ x. x.signals) same ∙ v.same_signals in
    let runs_now = ap (λ x. x.queued) same ∙ v.runs in
    let positive = limited.some_thread in
    let path =
      then_move (to_deciding s.shared going_now (ap is_empty signals_now ∙ some))
        (Move.is_busy (ground (arith, runs_now, positive, one))) in
    let (i, turns) = all_along entered taking n s path inside in
    let (j, t, more, kept, all) =
      turn_each (λ x. x.macro.signals ≡ m.signals) taking (sending m.signals)
        (λ x h. (
          with_macro (dec_queued x.globals.thread_limit x.macro) x,
          subst
              (λ ss.
                Move x taking (with_macro (dec_queued x.globals.thread_limit x.macro) x)
                  (sending ss))
              h Move.takes,
          (dec_queued-SameControl x.globals.thread_limit x.macro).same_signals ∙ h,
        ))
        n i s _ turns signals_now refl in
    (s, r, inside, ap (λ x. x.thread_count) same, runs_now, (j, t, more, all))
