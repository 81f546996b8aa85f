-- ===== src/Macro/Threads/Limits.antt =====
-- The queue and the limits of a macro.
use libmacro.Prelude.{ℕ, ◌+◌, ◌-◌, ◌≤◌, ◌<◌, ◌≡◌, ◌≢◌, ◌==◌, if◌then◌else◌, arith, min}
use libmacro.Macro.State.{Macro}
use libmacro.Macro.Threads.{limit_max_threads, inc_queued, dec_queued}

-- The thread limit of the macro is positive and within the global one, and no more runs wait than
-- there may be threads.
pub record IsLimited (limit : ℕ) (m : Macro) : Type 0 where
  pub some_thread : 0 < m.thread_max
  pub few_threads : m.thread_max ≤ limit
  pub few_runs : m.queued ≤ m.thread_max

-- Under a positive global limit `limitMaxThreads` brings every macro within its limits, and leaves
-- it there when it is called again.
pub limit_max_threads_lem :
    (limit : ℕ) (m : Macro)
    → 0 < limit
    → IsLimited limit (limit_max_threads limit m)
      × (limit_max_threads limit (limit_max_threads limit m) ≡ limit_max_threads limit m)
unfolding limit_max_threads
limit_max_threads_lem limit m pos = (ground arith, ground arith)

-- Within its limits a macro takes one more run if there is room, gives one up if there is one, and
-- stays within its limits.
pub queue_moves :
    (limit : ℕ) (m : Macro)
    → IsLimited limit m
    → ((inc_queued limit m).queued ≡ min (m.queued + 1) m.thread_max)
      × ((dec_queued limit m).queued ≡ m.queued - 1)
      × IsLimited limit (inc_queued limit m)
      × IsLimited limit (dec_queued limit m)
unfolding inc_queued dec_queued
queue_moves limit m v = (ground arith, ground arith, ground arith, ground arith)

-- With a global limit of 0 `limitMaxThreads` sets the limit of a macro to 1 if it is 0, and to 0
-- if it is not, so that it never settles.
pub limit_zero :
    (m : Macro)
    → ((limit_max_threads 0 m).thread_max ≡ (if m.thread_max == 0 then 1 else 0))
      × ((limit_max_threads 0 (limit_max_threads 0 m)).thread_max
          ≢ (limit_max_threads 0 m).thread_max)
unfolding limit_max_threads
limit_zero m = (ground arith, ground arith)
