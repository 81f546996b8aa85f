-- ===== src/Macro/Pool/Counts.antt =====
-- The counts of threads, whatever the order of the steps.
use libmacro.Prelude.{ℕ, ◌+◌, ◌^◌, ◌<◌, ◌≤◌, ◌≡◌, refl, ◌∙◌, arith, Bool}
use libmacro.Types.{Interrupt}
use libmacro.Macro.State.{Macro, Globals}
use libmacro.Macro.Threads.{start, dequeue, dec_queued, limit_max_threads}
use libmacro.Macro.Threads.Starting.{start_slots}
use libmacro.Macro.Control.{interrupt_locked}
use libmacro.Macro.Setting.{Setting-thread_count}
use libmacro.Macro.Pool.{
  Pool, Step, starts, enters, completes, releases, takes, interrupts, dequeues, sets, other_starts,
  other_releases, at_rest, Reach, here, later,
}

-- The macro counts its threads, every thread has a global slot, and no more slots are taken than
-- there are.
pub record IsCounted (p : Pool) : Type 0 where
  pub counted : p.macro.thread_count ≡ p.inside
  pub slots : p.globals.active ≡ p.made + p.inside + p.leaving + p.others
  pub within : p.globals.active ≤ p.globals.thread_limit
  pub narrow : p.globals.thread_limit < 2 ^ 32

start-thread_count :
    (b : Bool) (g : Globals) (m : Macro) → (start b g m).macro.thread_count ≡ m.thread_count
unfolding start
start-thread_count b g m = ground arith

interrupt_locked-thread_count :
    (v : Interrupt) (m : Macro) → ((interrupt_locked v m).1).thread_count ≡ m.thread_count
unfolding interrupt_locked
interrupt_locked-thread_count v m = ground arith

dequeue-thread_count : (v : Interrupt) (m : Macro) → (dequeue v m).thread_count ≡ m.thread_count
unfolding dequeue
dequeue-thread_count v m = refl

dec_queued-thread_count : (l : ℕ) (m : Macro) → (dec_queued l m).thread_count ≡ m.thread_count
unfolding dec_queued limit_max_threads
dec_queued-thread_count l m = ground arith

start-thread_limit :
    (b : Bool) (g : Globals) (m : Macro) → (start b g m).globals.thread_limit ≡ g.thread_limit
unfolding start
start-thread_limit b g m = ground arith

-- Every step keeps the counts right.
pub Step-IsCounted : {p q : Pool} → Step p q → IsCounted p → IsCounted q
Step-IsCounted {p} (starts b) v =
    let s = start b p.globals p.macro in
    let same = start-thread_limit b p.globals p.macro in
    let cases = start_slots b p.globals p.macro in
    record {
      counted = start-thread_count b p.globals p.macro ∙ v.counted;
      slots = ground (arith, v.slots, cases);
      within = ground (arith, v.within, same, cases);
      narrow = rw same v.narrow;
    }
Step-IsCounted {p} (enters h) v = record {
  counted = omega (arith, v.counted, v.slots, v.within, v.narrow, h);
  slots = omega (arith, h, v.slots);
  within = v.within;
  narrow = v.narrow;
}
Step-IsCounted {p} (completes h) v = record {
  counted = omega (arith, v.counted, v.slots, v.within, v.narrow, h);
  slots = omega (arith, h, v.slots);
  within = v.within;
  narrow = v.narrow;
}
Step-IsCounted {p} (releases h) v = record {
  counted = v.counted;
  slots = omega (arith, h, v.slots);
  within = omega (arith, v.within);
  narrow = v.narrow;
}
Step-IsCounted {p} takes v = record {
  counted = dec_queued-thread_count p.globals.thread_limit p.macro ∙ v.counted;
  slots = v.slots;
  within = v.within;
  narrow = v.narrow;
}
Step-IsCounted {p} (interrupts i) v = record {
  counted = interrupt_locked-thread_count i p.macro ∙ v.counted;
  slots = v.slots;
  within = v.within;
  narrow = v.narrow;
}
Step-IsCounted {p} (dequeues i) v = record {
  counted = dequeue-thread_count i p.macro ∙ v.counted;
  slots = v.slots;
  within = v.within;
  narrow = v.narrow;
}
Step-IsCounted {p} (sets h) v = record {
  counted = Setting-thread_count h ∙ v.counted;
  slots = v.slots;
  within = v.within;
  narrow = v.narrow;
}
Step-IsCounted {p} (other_starts h) v = record {
  counted = v.counted;
  slots = omega (arith, v.slots);
  within = omega arith;
  narrow = v.narrow;
}
Step-IsCounted {p} (other_releases h) v = record {
  counted = v.counted;
  slots = omega (arith, h, v.slots);
  within = omega (arith, v.within);
  narrow = v.narrow;
}

-- In every interleaving of starts, entries, completions, interrupts and steps of the setters and of
-- the copies, from a macro without threads under a global limit below 2 ^ 32 with no more slots
-- taken than there are, `_threadCount` is the number of threads between `runPreamble` and
-- `onRunComplete`, `g_activeThreadCount` the number of threads that hold a slot, and it stays
-- within the global limit.
pub threads_bounded :
    (m : Macro) (g : Globals) (p : Pool)
    → m.thread_count ≡ 0
    → g.active ≤ g.thread_limit
    → g.thread_limit < 2 ^ 32
    → Reach (at_rest m g) p
    → IsCounted p
threads_bounded m g p idle few narrow here = record {
  counted = idle;
  slots = omega arith;
  within = few;
  narrow = narrow;
}
threads_bounded m g p idle few narrow (later {q} r s) =
    Step-IsCounted s (threads_bounded m g q idle few narrow r)
