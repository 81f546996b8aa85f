-- ===== src/Tests/Clearing.antt =====
-- An example of a thread that clears its own macro.
use libmacro.Prelude.{◌+◌, ◌*◌, ◌≤◌, ◌≡◌, refl, [], ◌∷◌, true, arith}
use libmacro.Types.{disable}
use libmacro.Macro.State.{new_globals}
use libmacro.Macro.Threads.{start, dequeue, dec_queued}
use libmacro.Macro.Pool.{with_threads}
use libmacro.Macro.Schedule.{
  Shared, System, Move, Call, Reach, here, called, initial, after_start, macro_set, with_macro,
  fresh, delivering,
}
use libmacro.Macro.Schedule.Ending.{weight}
use libmacro.Macro.Schedule.Settling.{Turns-Reach}
use libmacro.Macro.Schedule.Moves.{Moves, none_made, then_move, with_thread, Moves-Turns}
use libmacro.Macro.Schedule.Clearing.{Clears, emptying}
use libmacro.Macro.Schedule.OwnClearing.{OwnCall, begins, call_goes_on, is_early, OwnCall-waits}
use libmacro.Tests.Data.{ready}

abbrev begun : System
begun = after_start true (initial ready new_globals)

abbrev counted : Shared
counted = with_macro (with_threads 1 begun.shared.macro) begun.shared

abbrev taken : Shared
taken = with_macro (dec_queued 0x10 counted.macro) counted

-- The thread up to its first signal
to_signal : Moves begun.shared fresh taken (delivering 5 (6 ∷ []))
unfolding start dec_queued
to_signal =
    then_move
      (then_move
        (then_move
          (then_move
            (then_move
              (then_move
                (then_move (then_move (then_move none_made Move.enter) (Move.preamble_free refl))
                  (Move.some_signals refl))
                (Move.goes_on refl))
              (Move.loop_free refl))
            (Move.decides refl))
          (Move.is_busy (λ e. omega (arith, e))))
        Move.takes)
      (Move.passes refl)

abbrev clearing : System
clearing = with_thread [] [] 0 taken (delivering 5 (6 ∷ []))

clearing-Reach : Reach (initial ready new_globals) clearing
unfolding start
clearing-Reach = Turns-Reach (called here (Call.starts true)) ((Moves-Turns [] [] 0 to_signal).1)

abbrev dequeued : System
dequeued = macro_set (dequeue disable clearing.shared.macro) clearing

looking_on : OwnCall disable true clearing (delivering 5 (6 ∷ [])) 1 dequeued emptying
unfolding start dequeue dec_queued
looking_on = call_goes_on begins (Clears.sees_some (λ e. omega (arith, e)))

OwnCall-waits_example : (1 ≤ 4 * weight clearing + 5) × (is_early emptying ≡ true)
OwnCall-waits_example =
    OwnCall-waits ready new_globals clearing dequeued disable true 1 emptying 5 (6 ∷ []) refl
      (omega arith) (omega arith) clearing-Reach refl refl ([], [], refl) looking_on
