-- ===== src/Macro/Setting.antt =====
-- src/macro.cpp: the setters and the copies of a macro as steps between those of its threads, each
-- being what is done at once, under a lock where there is one. `setThreadMax` is two steps, since
-- `limitMaxThreads` comes after its lock, and so are the end of a `copy` and what it does before.
-- What `setActivators`, `setTriggers` and `copy` do with dispatchers is not in these steps.
pub mod Bounds
use libmacro.Prelude.{ℕ, ◌≡◌, refl, List, Option, Bool, false, ◌==◌, ◌||◌, ltb, arith}
use libmacro.Text.{Text}
use libmacro.Error.{ok}
use libmacro.Macro.State.{Macro}
use libmacro.Macro.Threads.{limit_max_threads}
use libmacro.Macro.Control.{
  set_context, set_blocking, set_sticky, set_apply_dispatch_enabled, set_name, set_signals,
}
use libmacro.Macro.Copying.{assigned}

-- What one step of a setter or of a copy leaves of the macro, under a global limit. `copies` is the
-- part of `copy` under the lock, which `disableEverything` comes before; where a thread is counted
-- by then, that thread walks a vector that is changed, and the step is not in the model.
pub data Setting (limit : ℕ) (m : Macro) : Macro → Type 0 where
  sets_context : (val : ℕ) → Setting limit m (set_context val m)
  sets_blocking : (val : Bool) → Setting limit m (set_blocking val m)
  sets_sticky : (val : Bool) → Setting limit m (set_sticky val m)
  sets_apply_dispatch : (val : Bool) → Setting limit m (set_apply_dispatch_enabled val m)
  sets_name : (val : Option Text) {n : Macro} → set_name val m ≡ ok n → Setting limit m n
  sets_signals : (array : List ℕ) {n : Macro} → set_signals array m ≡ ok n → Setting limit m n
  sets_activators : (array : List ℕ) → Setting limit m (record m { activators = array })
  sets_triggers : (array : List ℕ) → Setting limit m (record m { triggers = array })
  sets_thread_max :
      (val : ℕ)
      → (val == 0 || ltb limit val) ≡ false
      → Setting limit m (record m { thread_max = val })
  limits_threads : Setting limit m (limit_max_threads limit m)
  copies : (other : Macro) → m.thread_count ≡ 0 → Setting limit m (assigned other m)
  joins : Setting limit m (record m { threads = 0 })

-- No setting counts a thread.
pub Setting-thread_count :
    {limit : ℕ} {m n : Macro} → Setting limit m n → n.thread_count ≡ m.thread_count
unfolding set_context set_blocking set_sticky set_apply_dispatch_enabled set_name set_signals
    limit_max_threads
Setting-thread_count (Setting.sets_context val) = refl
Setting-thread_count (Setting.sets_blocking val) = refl
Setting-thread_count (Setting.sets_sticky val) = refl
Setting-thread_count (Setting.sets_apply_dispatch val) = refl
Setting-thread_count (Setting.sets_name val e) = ground arith
Setting-thread_count (Setting.sets_signals array e) = ground arith
Setting-thread_count (Setting.sets_activators array) = refl
Setting-thread_count (Setting.sets_triggers array) = refl
Setting-thread_count (Setting.sets_thread_max val h) = refl
Setting-thread_count Setting.limits_threads = refl
Setting-thread_count (Setting.copies other idle) = refl
Setting-thread_count Setting.joins = refl
