-- ===== src/Macro/Schedule/Moves.antt =====
-- The moves of one thread while the others stand still.
use libmacro.Prelude.{ℕ, suc, refl, List, ◌∷◌, ◌++◌}
use libmacro.Macro.Schedule.{Shared, System, Place, Move, turn}
use libmacro.Macro.Schedule.Ending.{Turns, no_turn, one_more}

-- Moves of one thread, with no move of another between them
pub data Moves (s : Shared) (p : Place) : Shared → Place → Type 0 where
  none_made : Moves s p s p
  then_move : {t u : Shared} {q r : Place} → Moves s p t q → Move t q u r → Moves s p u r

pub Moves-trans :
    {s : Shared} {p : Place} {t : Shared} {q : Place} {u : Shared} {r : Place}
    → Moves s p t q
    → Moves t q u r
    → Moves s p u r
Moves-trans a none_made = a
Moves-trans a (then_move b m) = then_move (Moves-trans a b) m

pub Move-Moves : {s t : Shared} {p q : Place} → Move s p t q → Moves s p t q
Move-Moves m = then_move none_made m

-- The system with one thread singled out
abbrev pub with_thread : List Place → List Place → ℕ → Shared → Place → System
with_thread before after others s p = record {
  shared = s;
  places = before ++ p ∷ after;
  others = others;
}

pub Moves-Turns :
    {s : Shared} {p : Place} {t : Shared} {q : Place} (before after : List Place) (others : ℕ)
    → Moves s p t q
    → (n : ℕ) × Turns (with_thread before after others s p) n (with_thread before after others t q)
Moves-Turns before after others none_made = (0, no_turn)
Moves-Turns before after others (then_move moves m) =
    let (n, turns) = Moves-Turns before after others moves in
    (suc n, one_more turns (turn before after refl m))
