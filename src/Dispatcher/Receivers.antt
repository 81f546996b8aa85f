-- ===== src/Dispatcher/Receivers.antt =====
-- The receivers of a dispatcher are a set: what each operation does to it.
use libmacro.Prelude.{
  ℕ, ◌+◌, ◌-◌, ◌≡◌, true, not, ◌&&◌, ◌||◌, ◌==◌, if◌then◌else◌, arith, has, IsSetList, has-without,
  count-without, count-eq-zero, length-without, count_pos,
}
use libmacro.Dispatcher.{Dispatcher, add, clear, remove, size}

-- The list names no receiver twice.
abbrev pub IsWellFormed : Dispatcher → Type 0
IsWellFormed d = IsSetList d.receivers

pub has-add :
    (signal q r : ℕ) (d : Dispatcher)
    → has r (add signal q d).receivers ≡ (q == r || has r d.receivers)
unfolding add
has-add signal q r d = ground arith

pub has-remove :
    (q r : ℕ) (d : Dispatcher)
    → has r (remove q d).receivers
      ≡ (if q == 0 then has r d.receivers else not (q == r) && has r d.receivers)
unfolding remove
has-remove q r d = ground (arith, has-without q r d.receivers)

-- Each operation keeps the receivers a set.
pub add-IsWellFormed :
    (signal q : ℕ) (d : Dispatcher) → IsWellFormed d → IsWellFormed (add signal q d)
unfolding add
add-IsWellFormed signal q d w r = ground (arith, w r, count-eq-zero q d.receivers)

pub remove-IsWellFormed : (q : ℕ) (d : Dispatcher) → IsWellFormed d → IsWellFormed (remove q d)
unfolding remove
remove-IsWellFormed q d w r = ground (arith, w r, count-without q r d.receivers)

pub clear-IsWellFormed : (d : Dispatcher) → IsWellFormed (clear d)
unfolding clear
clear-IsWellFormed d r = omega arith

-- On a set of receivers the size grows by one with a new receiver and shrinks by one with the
-- removal of one that is there; the null receiver can be added, and is never removed.
pub size-add-remove :
    (signal q : ℕ) (d : Dispatcher)
    → IsWellFormed d
    → (size (add signal q d) ≡ (if has q d.receivers then size d else size d + 1))
      × (size (remove q d)
          ≡ (if q == 0 then size d else if has q d.receivers then size d - 1 else size d))
      × (has 0 (remove 0 (add signal 0 d)).receivers ≡ true)
unfolding add remove size
size-add-remove signal q d w = (
  ground arith,
  ground (
    arith,
    length-without q d.receivers,
    w q,
    count_pos q d.receivers,
    count-eq-zero q d.receivers,
  ),
  ground arith,
)
