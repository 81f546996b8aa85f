-- ===== src/Macro/Threads.antt =====
-- src/macro.cpp: the queue of runs, the limits on threads, and the start of a thread.
pub mod Limits
pub mod Starting
use libmacro.Prelude.{ℕ, suc, ◌+◌, ◌-◌, Bool, true, false, ◌==◌, ◌||◌, ltb, leb, if◌then◌else◌}
use libmacro.Types.{Interrupt, continue, pause, interrupt, interrupt_all, disable}
use libmacro.Macro.State.{Macro, Globals, running}

-- The first half of `limitMaxThreads`, on `_threadMax`
abbrev pub limited : ℕ → ℕ → ℕ
limited limit max = if max == 0 then 1 else if ltb limit max then limit else max

-- `limitMaxThreads`, with the global limit at hand
unfoldable pub limit_max_threads : ℕ → Macro → Macro
limit_max_threads limit m = record m {
  thread_max = limited limit m.thread_max;
  queued = if ltb (limited limit m.thread_max) m.queued then 0 else m.queued;
}

unfoldable pub inc_queued : ℕ → Macro → Macro
unfolding limit_max_threads
inc_queued limit m =
    if ltb m.queued m.thread_max
    then limit_max_threads limit (record m { queued = m.queued + 1 })
    else m

unfoldable pub dec_queued : ℕ → Macro → Macro
unfolding limit_max_threads
dec_queued limit m =
    if m.queued == 0 then m else limit_max_threads limit (record m { queued = m.queued - 1 })

unfoldable pub dequeue : Interrupt → Macro → Macro
dequeue val m = record m { queued = 0; interruptor = val }

-- What a call on the macro leaves, and whether it made a thread.
pub record Started : Type 0 where
  pub macro : Macro
  pub globals : Globals
  pub spawned : Bool

-- The part of `trySpawnThread` after the reservation of a global slot, and after `incQueued`.
-- `available` says whether the system can make another thread.
spawn_reserved : Bool → Globals → Macro → Started
spawn_reserved available g m =
    if ltb m.thread_max m.queued || m.queued == 0
    then record { macro = record m { queued = 0 }; globals = g; spawned = false }
    else if available
    then record {
      macro = record m { threads = m.threads + 1 };
      globals = record g { active = g.active + 1 };
      spawned = true;
    }
    else record { macro = m; globals = g; spawned = false }

-- `trySpawnThread`
unfoldable pub try_spawn_thread : Bool → Globals → Macro → Started
unfolding inc_queued spawn_reserved
try_spawn_thread available g m =
    if leb g.thread_limit g.active
    then record { macro = record m { queued = 0 }; globals = g; spawned = false }
    else spawn_reserved available g (inc_queued g.thread_limit m)

-- The `CONTINUE` and `PAUSE` cases of `start`
start_thread : Bool → Globals → Macro → Started
unfolding try_spawn_thread limit_max_threads
start_thread available g m =
    let tried = try_spawn_thread available g m in
    let dropped : Started = record { macro = m; globals = g; spawned = false } in
    let limited_again : Started = record tried {
      macro = limit_max_threads tried.globals.thread_limit tried.macro;
    } in
    if ltb m.thread_count m.thread_max
    then (if tried.spawned then tried else limited_again)
    else dropped

start_on : Interrupt → Bool → Globals → Macro → Started
unfolding start_thread
start_on continue available g m = start_thread available g m
start_on pause available g m = start_thread available g m
start_on interrupt available g m = record {
  macro = record m { interruptor = continue };
  globals = g;
  spawned = false;
}
start_on interrupt_all available g m = record { macro = m; globals = g; spawned = false }
start_on disable available g m = record { macro = m; globals = g; spawned = false }

-- `start`
unfoldable pub start : Bool → Globals → Macro → Started
unfolding start_on
start available g m = start_on m.interruptor available g m

-- `act` and `receive`: both start the macro, and block as its flag says.
unfoldable pub act : Bool → Globals → Macro → Started × Bool
unfolding start
act available g m = (start available g m, m.blocking)

-- `handleInterruptAll`; the result is whether a thread is to be made that resets the macro.
unfoldable pub handle_interrupt_all : Macro → Bool × Macro
unfolding dequeue
handle_interrupt_all m =
    let m' = dequeue interrupt_all m in
    if running m then (true, m') else (false, record m' { interruptor = continue })
