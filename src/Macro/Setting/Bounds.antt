-- ===== src/Macro/Setting/Bounds.antt =====
-- What the steps of a macro keep: the bounds of its thread limit and of its queue, and its signals,
-- but for those that a setting gives to it.
use libmacro.Prelude.{ℕ, ◌<◌, ◌≤◌, ◌≡◌, sym, subst, refl, Bool, arith, All}
use libmacro.Types.{Interrupt}
use libmacro.Macro.State.{Macro, Globals}
use libmacro.Macro.Threads.{start, dequeue, dec_queued, limit_max_threads}
use libmacro.Macro.Control.{
  interrupt_locked, set_context, set_blocking, set_sticky, set_apply_dispatch_enabled, set_name,
  set_signals,
}
use libmacro.Macro.Pool.{with_threads}
use libmacro.Macro.Setting.{Setting}

-- The thread limit is positive and within the global one, and so is the queue within the global one.
-- The queue may be above the limit of the macro between the halves of `setThreadMax`.
pub record IsBounded (limit : ℕ) (m : Macro) : Type 0 where
  pub some_thread : 0 < m.thread_max
  pub few_threads : m.thread_max ≤ limit
  pub few_runs : m.queued ≤ limit

-- A change of the macro that keeps its bounds and its signals
abbrev pub Keeps : ℕ → Macro → Macro → Type 0
Keeps limit m n = IsBounded limit n × (n.signals ≡ m.signals)

pub start-Keeps :
    {limit : ℕ} (available : Bool) (g : Globals) (m : Macro)
    → g.thread_limit ≡ limit
    → IsBounded limit m
    → Keeps limit m (start available g m).macro
      × ((start available g m).globals.thread_limit ≡ limit)
unfolding start
start-Keeps available g m e v = ((ground arith, ground arith), ground arith)

pub interrupt_locked-Keeps :
    {limit : ℕ} (v : Interrupt) (m : Macro)
    → IsBounded limit m
    → Keeps limit m (interrupt_locked v m).1
unfolding interrupt_locked
interrupt_locked-Keeps v m b = (ground arith, ground arith)

pub dequeue-Keeps :
    {limit : ℕ} (v : Interrupt) (m : Macro) → IsBounded limit m → Keeps limit m (dequeue v m)
unfolding dequeue
dequeue-Keeps v m b = (ground arith, refl)

pub dec_queued-Keeps :
    {limit : ℕ} (g : Globals) (m : Macro)
    → g.thread_limit ≡ limit
    → IsBounded limit m
    → Keeps limit m (dec_queued g.thread_limit m)
unfolding dec_queued limit_max_threads
dec_queued-Keeps g m e v = (ground arith, ground arith)

pub count-Keeps : {limit k : ℕ} {m : Macro} → IsBounded limit m → Keeps limit m (with_threads k m)
count-Keeps v = (
  record { some_thread = v.some_thread; few_threads = v.few_threads; few_runs = v.few_runs },
  refl,
)

-- The signals that a setting gives to the macro are of a kind, and a macro that is copied has a thread
-- limit that could be set.
abbrev pub IsGivenBy : {limit : ℕ} {m n : Macro} → (ℕ → Type 0) → Setting limit m n → Type 0
IsGivenBy P (Setting.sets_signals array e) = All P array
IsGivenBy {limit = limit} P (Setting.copies other idle) =
    All P other.signals × (0 < other.thread_max) × (other.thread_max ≤ limit)
IsGivenBy P _ = Unit

module _ (P : ℕ → Type 0) (limit : ℕ) where
  setting_kept :
      {m n : Macro} (k : Setting limit m n)
      → IsGivenBy P k
      → IsBounded limit m
      → All P m.signals
      → IsBounded limit n × All P n.signals
  unfolding set_context set_blocking set_sticky set_apply_dispatch_enabled set_name set_signals
      limit_max_threads
  setting_kept (Setting.sets_context val) o b ss = (ground arith, ss)
  setting_kept (Setting.sets_blocking val) o b ss = (ground arith, ss)
  setting_kept (Setting.sets_sticky val) o b ss = (ground arith, ss)
  setting_kept (Setting.sets_apply_dispatch val) o b ss = (ground arith, ss)
  setting_kept {m} {n} (Setting.sets_name val e) o b ss =
      let same : n.signals ≡ m.signals = ground arith in (ground arith, subst (All P) (sym same) ss)
  setting_kept {m} {n} (Setting.sets_signals array e) o b ss =
      let same : n.signals ≡ array = ground arith in (ground arith, subst (All P) (sym same) o)
  setting_kept (Setting.sets_activators array) o b ss = (ground arith, ss)
  setting_kept (Setting.sets_triggers array) o b ss = (ground arith, ss)
  setting_kept (Setting.sets_thread_max val h) o b ss = (ground arith, ss)
  setting_kept Setting.limits_threads o b ss = (ground arith, ss)
  setting_kept (Setting.copies other idle) (given, some, few) b ss =
      (record { some_thread = some; few_threads = few; few_runs = b.few_runs }, given)
  setting_kept Setting.joins o b ss = (ground arith, ss)

  pub setting_at :
      {l : ℕ} {m n : Macro}
      → l ≡ limit
      → (k : Setting l m n) → IsGivenBy P k
      → IsBounded limit m
      → All P m.signals
      → IsBounded limit n × All P n.signals
  setting_at {m = m} {n = n} e =
      subst
        (λ l.
          (k : Setting l m n)
          → IsGivenBy P k
          → IsBounded limit m
          → All P m.signals
          → IsBounded limit n × All P n.signals)
        (sym e) setting_kept
