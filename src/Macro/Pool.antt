-- ===== src/Macro/Pool.antt =====
-- src/macro.cpp: a macro whose threads and callers interleave. A step is what one thread does under
-- a lock: a call of `start`, the entry of a thread in `runPreamble`, the two halves of
-- `onRunComplete`, a run taken from the queue, the `dequeue` of `clearThreads`,
-- `resetThread` and the destructor, a change of the interruptor, or a step of a setter or a
-- copy. `run` on a thread of the caller and changes of the global limit are no steps here.
pub mod Counts
pub mod Starts
pub mod Draining
use libmacro.Prelude.{ℕ, suc, ◌+◌, ◌-◌, ◌<◌, ◌≡◌, Bool, if◌then◌else◌}
use libmacro.Types.{Interrupt}
use libmacro.Macro.State.{Macro, Globals}
use libmacro.Macro.Threads.{start, dec_queued, dequeue}
use libmacro.Macro.Control.{interrupt_locked}
use libmacro.Macro.Run.{up, down}
use libmacro.Macro.Setting.{Setting}

-- Of the macro's threads, `made` have not reached `runPreamble`, `inside` are counted by the macro,
-- and `leaving` are counted by the global only. `others` are the threads of other macros.
pub record Pool : Type 0 where
  pub macro : Macro
  pub globals : Globals
  pub made : ℕ
  pub inside : ℕ
  pub leaving : ℕ
  pub others : ℕ

abbrev pub started : Bool → Pool → Pool
started available p =
    let s = start available p.globals p.macro in
    record p {
      macro = s.macro;
      globals = s.globals;
      made = if s.spawned then p.made + 1 else p.made;
    }

-- `g_activeThreadCount`, raised under the limit and lowered above 0
abbrev pub with_active : ℕ → Globals → Globals
with_active n g = record g { active = n }

-- `_threadCount`
abbrev pub with_threads : ℕ → Macro → Macro
with_threads n m = record m { thread_count = n }

pub data Step (p : Pool) : Pool → Type 0 where
  starts : (available : Bool) → Step p (started available p)
  enters :
      {n : ℕ}
      → p.made ≡ suc n
      → Step p (record p {
        macro = with_threads (up p.macro.thread_count) p.macro;
        made = n;
        inside = p.inside + 1;
      })
  completes :
      {n : ℕ}
      → p.inside ≡ suc n
      → Step p (record p {
        macro = with_threads (down p.macro.thread_count) p.macro;
        inside = n;
        leaving = p.leaving + 1;
      })
  releases :
      {n : ℕ}
      → p.leaving ≡ suc n
      → Step p (record p { globals = with_active (p.globals.active - 1) p.globals; leaving = n })
  takes : Step p (record p { macro = dec_queued p.globals.thread_limit p.macro })
  interrupts : (v : Interrupt) → Step p (record p { macro = (interrupt_locked v p.macro).1 })
  dequeues : (v : Interrupt) → Step p (record p { macro = dequeue v p.macro })
  sets : {m : Macro} → Setting p.globals.thread_limit p.macro m → Step p (record p { macro = m })
  other_starts :
      p.globals.active < p.globals.thread_limit
      → Step p (record p {
        globals = with_active (p.globals.active + 1) p.globals;
        others = p.others + 1;
      })
  other_releases :
      {n : ℕ}
      → p.others ≡ suc n
      → Step p (record p { globals = with_active (p.globals.active - 1) p.globals; others = n })

-- No thread of the macro at the beginning
abbrev pub at_rest : Macro → Globals → Pool
at_rest m g = record {
  macro = m;
  globals = g;
  made = 0;
  inside = 0;
  leaving = 0;
  others = g.active;
}

pub data Reach (p : Pool) : Pool → Type 0 where
  here : Reach p p
  later : {q r : Pool} → Reach p q → Step q r → Reach p r
