-- ===== src/Macro/Threads/Starting.antt =====
-- What a call of `start` does in each state of the macro.
use libmacro.Prelude.{◌+◌, ◌≤◌, ◌<◌, ◌≡◌, ◌⊎◌, Bool, true, false, arith, min}
use libmacro.Types.{continue, pause}
use libmacro.Macro.State.{Macro, Globals}
use libmacro.Macro.Threads.{start}
use libmacro.Macro.Threads.Limits.{IsLimited}

-- The macro can take a start: it is not interrupted, and fewer threads run than it may have.
abbrev pub CanStart : Macro → Type 0
CanStart m =
    ((m.interruptor ≡ continue) ⊎ (m.interruptor ≡ pause)) × (m.thread_count < m.thread_max)

-- A macro within its limits that is not interrupted and has room for a thread gets one from a
-- start, with a global slot and one more queued run, at most as many as its limit, if a slot is
-- free and the system can make a thread.
pub start_spawns :
    (g : Globals) (m : Macro)
    → IsLimited g.thread_limit m
    → CanStart m
    → g.active < g.thread_limit
    → start true g m ≡ record {
      macro = record m { queued = min (m.queued + 1) m.thread_max; threads = m.threads + 1 };
      globals = record g { active = g.active + 1 };
      spawned = true;
    }
unfolding start
start_spawns g m v can free = ground arith

-- With no global slot left a macro within its limits that can take a start gets no thread and
-- loses the runs that were queued.
pub start_refused :
    (available : Bool) (g : Globals) (m : Macro)
    → IsLimited g.thread_limit m
    → CanStart m
    → g.thread_limit ≤ g.active
    → start available g m ≡ record { macro = record m { queued = 0 }; globals = g; spawned = false }
unfolding start
start_refused available g m v can full = ground arith

-- Whatever the state, a start makes a thread only together with a global slot and below the global
-- limit, and otherwise leaves the count of global slots.
pub start_slots :
    (available : Bool) (g : Globals) (m : Macro)
    → let s = start available g m in
      ((s.spawned ≡ true)
        × (s.globals.active ≡ g.active + 1)
        × (g.active < g.thread_limit)
        × (s.macro.threads ≡ m.threads + 1))
      ⊎ ((s.spawned ≡ false) × (s.globals ≡ g) × (s.macro.threads ≡ m.threads))
unfolding start
start_slots available g m = ground arith
