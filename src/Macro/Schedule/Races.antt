-- ===== src/Macro/Schedule/Races.antt =====
-- What the threads of a macro can undo, because `consumeInterrupt` lets the lock go between its test
-- and its call of `setInterruptor`.
use libmacro.Prelude.{ℕ, ◌<◌, ◌≡◌, ap, refl, [], ◌∷◌, true, if◌then◌else◌, arith, inl}
use libmacro.Types.{continue, interrupt, disable}
use libmacro.Macro.State.{Macro, Globals, enabled}
use libmacro.Macro.Threads.Limits.{IsLimited}
use libmacro.Macro.Threads.Starting.{start_spawns}
use libmacro.Macro.Control.{interrupt_locked}
use libmacro.Macro.Schedule.{
  System, fresh, entered, consuming, completing, Move, turn, Call, Reach, here, turned, called,
  initial, after_start, macro_set, with_macro,
}
use libmacro.Macro.Pool.{with_threads}
use libmacro.Macro.Run.{up}
use libmacro.Macro.Schedule.Ending.{Turns, no_turn, one_more}

-- A macro within its limits, in CONTINUE and without threads, where a global slot is free, can be
-- started, interrupted and then disabled so that a move of its own thread enables it again.
pub disable_lost :
    (m : Macro) (g : Globals)
    → IsLimited g.thread_limit m
    → m.interruptor ≡ continue
    → m.thread_count ≡ 0
    → g.active < g.thread_limit
    → (s : System) × (t : System) × (n : ℕ) × Reach (initial m g) s
      × (s.shared.macro.interruptor ≡ disable)
      × Turns s n t
      × (enabled t.shared.macro ≡ true)
unfolding interrupt_locked
disable_lost m g v going idle free =
    let first = after_start true (initial m g) in
    let spawned = start_spawns g m v (inl going, omega (arith, v.some_thread, idle)) free in
    let places : first.places ≡ fresh ∷ [] =
      ap (λ c. if c.spawned then fresh ∷ [] else []) spawned in
    let counted : System = record first {
      shared =
          with_macro (with_threads (up first.shared.macro.thread_count) first.shared.macro)
            first.shared;
      places = entered ∷ [];
    } in
    let pressed : System = macro_set (interrupt_locked interrupt counted.shared.macro).1 counted in
    let seen : System = record pressed { places = consuming ∷ [] } in
    let off : System = macro_set (interrupt_locked disable seen.shared.macro).1 seen in
    let on : System = record off {
      shared = with_macro (interrupt_locked continue off.shared.macro).1 off.shared;
      places = completing ∷ [];
    } in
    let r1 : Reach (initial m g) counted =
      turned (called here (Call.starts true)) (turn [] [] places Move.enter) in
    let r2 : Reach (initial m g) pressed = called r1 (Call.interrupts interrupt) in
    let r3 : Reach (initial m g) seen =
      turned r2 (turn [] [] refl (Move.preamble_interrupted refl)) in
    let r4 : Reach (initial m g) off = called r3 (Call.interrupts disable) in
    (off, on, 1, r4, refl, one_more no_turn (turn [] [] refl Move.consume), refl)
