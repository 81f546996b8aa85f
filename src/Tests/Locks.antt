-- ===== src/Tests/Locks.antt =====
-- Examples of threads that take the same mutexes.
use libmacro.Prelude.{◌⊎◌, refl, List, [], ◌∷◌, All}
use libmacro.Locks.{own, global, acquire, release, Trace}
use libmacro.Locks.Calls.{IsCall}
use libmacro.Locks.Threads.{
  Thread, LockTurn, takes, locking, AllTurns, none_yet, one_more, IsStarted,
}
use libmacro.Locks.Progress.{IsAway, no_deadlock}

-- One thread starts a macro, where no global slot is free, and another applies its dispatch.
abbrev starting : Thread
starting = record {
  held = [];
  rest = acquire (own 1) ∷ acquire global ∷ release global ∷ release (own 1) ∷ [];
}

abbrev applying : Thread
applying = record { held = []; rest = acquire (own 1) ∷ release (own 1) ∷ [] }

abbrev two_threads : List Thread
two_threads = starting ∷ applying ∷ []

-- The first has taken the mutex of the macro.
abbrev one_inside : List Thread
one_inside =
    record { held = own 1 ∷ []; rest = acquire global ∷ release global ∷ release (own 1) ∷ [] }
    ∷ applying
    ∷ []

two_threads-IsStarted : All IsStarted two_threads
two_threads-IsStarted = (
  (
    _,
    _,
    IsCall.starts 1,
    refl,
    Trace.both (Trace.locked (Trace.first (Trace.first (Trace.locked Trace.passed))))
        Trace.nothing_done,
  ),
  ((_, _, IsCall.locks 1, refl, Trace.locked Trace.passed), tt),
)

one_inside-AllTurns : AllTurns two_threads one_inside
one_inside-AllTurns =
    one_more none_yet (locking (takes starting (own 1) _ [] (applying ∷ []) refl refl refl))

no_deadlock_example : All IsAway one_inside ⊎ ((vs : List Thread) × LockTurn one_inside vs)
no_deadlock_example = no_deadlock two_threads one_inside two_threads-IsStarted one_inside-AllTurns
