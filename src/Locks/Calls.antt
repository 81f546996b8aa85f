-- ===== src/Locks/Calls.antt =====
-- What the functions of src/macro.cpp and src/libmacro.cpp do with mutexes. The dispatchers that
-- `_addDispatch` and `_removeDispatch` call take none.
use libmacro.Prelude.{ℕ}
use libmacro.Locks.{
  Mutex, own, global, registry, Code, nothing, throws, blocks, within, seq, either, loop, catches,
}

-- A lock held for something that takes no other and may throw
abbrev pub guard : Mutex → Code
guard x = within x throws

-- `_cndThreadCount.wait`: while the condition does not hold, the mutex is given back and taken again.
abbrev pub wait_code : ℕ → Code
wait_code this = seq (guard (own this)) (loop (seq blocks (guard (own this))))

-- `joinAllThreads`
abbrev pub join_code : Code
join_code = loop blocks

-- `setBlocking`, `setSticky`, `setApplyDispatchEnabled`, `applyDispatch`, the functions
-- `addDispatch` and `removeDispatch`, `setActivators`, `setSignals` and `setTriggers`
abbrev pub locked_code : ℕ → Code
locked_code this = guard (own this)

-- `setName` and `setThreadMax`, which test their argument first
abbrev pub checked_code : ℕ → Code
checked_code this = seq throws (guard (own this))

-- `setInterruptor`
abbrev pub interruptor_code : ℕ → Code
interruptor_code this =
    seq throws
      (either nothing (seq (guard (own this)) (seq (either nothing (locked_code this)) throws)))

-- `trySpawnThread`
abbrev pub spawn_code : Code
spawn_code = either (guard global) (
    seq (guard global)
      (seq (catches (either (guard global) throws)) (either nothing (guard global))))

-- `start`: where no thread is made, the lock is given back before the limits.
abbrev pub start_code : ℕ → Code
start_code this = seq (within (own this) (either spawn_code nothing)) nothing

-- `clearThreadsSticky`
abbrev pub sticky_code : ℕ → Code
sticky_code this = seq (loop (wait_code this)) (either nothing (guard (own this)))

-- `clearThreads`
abbrev pub clear_code : ℕ → Code
clear_code this = seq throws (seq (either (wait_code this) (sticky_code this)) join_code)

-- `disableEverything`
abbrev pub disable_code : ℕ → Code
disable_code this = seq throws (clear_code this)

-- `resetThread`
abbrev pub reset_code : ℕ → Code
reset_code this = seq (either nothing (clear_code this)) (either nothing (interruptor_code this))

-- `copy`
abbrev pub copy_code : ℕ → Code
copy_code this = seq (disable_code this) (seq (guard (own this)) (locked_code this))

-- `consumeInterrupt`
abbrev pub consume_code : ℕ → Code
consume_code this = either nothing (seq (guard (own this)) (either nothing (interruptor_code this)))

-- `onRunComplete`
abbrev pub complete_code : ℕ → Code
complete_code this = seq (guard (own this)) (guard global)

-- `pauseIfInterrupted`
abbrev pub pause_code : ℕ → Code
pause_code this = either nothing (wait_code this)

-- `runPreamble`
abbrev pub preamble_code : ℕ → Code
preamble_code this =
    seq (guard (own this)) (seq (consume_code this) (either (complete_code this) (pause_code this)))

-- `run`, with what a signal that it sends may do
abbrev pub run_code : ℕ → Code → Code
run_code this delivery = seq (preamble_code this) (
    either nothing (
      seq
        (catches
          (loop (seq (consume_code this) (either nothing (seq (loop delivery) (pause_code this))))))
        (complete_code this)))

-- The constructor and the destructor of `LibmacroImpl`, `instance` and `hasInstance`
abbrev pub context_code : Code
context_code = guard registry

-- What a thread may call: a function of a macro at some address or of a context, one after another,
-- and `run` where the signals do what a thread may call
pub data IsCall : Code → Type 0 where
  locks : (this : ℕ) → IsCall (locked_code this)
  checks : (this : ℕ) → IsCall (checked_code this)
  interrupts : (this : ℕ) → IsCall (interruptor_code this)
  starts : (this : ℕ) → IsCall (start_code this)
  clears : (this : ℕ) → IsCall (clear_code this)
  disables : (this : ℕ) → IsCall (disable_code this)
  resets : (this : ℕ) → IsCall (reset_code this)
  copies : (this : ℕ) → IsCall (copy_code this)
  counts : IsCall (guard global)
  contexts : IsCall context_code
  runs : (this : ℕ) {delivery : Code} → IsCall delivery → IsCall (run_code this delivery)
  raises : IsCall throws
  chooses : {c d : Code} → IsCall c → IsCall d → IsCall (either c d)
  follows : {c d : Code} → IsCall c → IsCall d → IsCall (seq c d)
