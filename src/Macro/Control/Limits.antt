-- ===== src/Macro/Control/Limits.antt =====
-- What a start leaves of a macro: its limits and its set-up.
use libmacro.Prelude.{ℕ, ◌≡◌, Bool, arith}
use libmacro.Macro.State.{Macro, Globals}
use libmacro.Macro.Threads.{start}
use libmacro.Macro.Threads.Limits.{IsLimited}

-- A macro with the set-up of one, and what its threads, its calls and interrupts change of another
abbrev pub with_control : Macro → Macro → Macro
with_control n m = record m {
  interruptor = n.interruptor;
  thread_count = n.thread_count;
  thread_max = n.thread_max;
  queued = n.queued;
  threads = n.threads;
}

pub start-IsLimited :
    {limit : ℕ} (available : Bool) (g : Globals) (m : Macro)
    → g.thread_limit ≡ limit
    → IsLimited limit m
    → let n = start available g m in
      (n.globals.thread_limit ≡ limit)
      × IsLimited limit n.macro
      × (n.macro ≡ with_control n.macro m)
unfolding start
start-IsLimited available g m e v = (ground arith, ground arith, ground arith)
