-- ===== src/Tests/Data.antt =====
-- The objects that the examples run on.
use libmacro.Prelude.{ℕ, List, [], ◌∷◌, ◌++◌, ◌==◌, Bool, false, if◌then◌else◌, arith}
use libmacro.Types.{continue}
use libmacro.Dispatcher.{Dispatcher, new_dispatcher}
use libmacro.Macro.State.{Macro, new_macro, new_globals}
use libmacro.Macro.Dispatching.{Heap}
use libmacro.Macro.Dispatching.Removal.{NotNull}
use libmacro.Macro.Threads.Limits.{IsLimited}
use libmacro.Macro.Run.{Scene, Environment}

-- The generic dispatcher stands at 10; signal 5 has the dispatcher at 20, and signal 6 has none.
abbrev pub heap : Heap Dispatcher
heap = record {
  generic_of = λ _. 10;
  dispatcher_of = λ s. if s == 5 then 20 else 0;
  actor_of = λ _. 0;
  net = λ _. new_dispatcher 1;
}

abbrev pub this : ℕ
this = 3

-- A macro that can be started, with an activator, a trigger and two signals
abbrev pub ready : Macro
ready = record (new_macro 1) {
  interruptor = continue;
  activators = 5 ∷ [];
  triggers = 7 ∷ [];
  signals = 5 ∷ 6 ∷ [];
  thread_max = 2;
  queued = 2;
}

-- The same without activators
abbrev pub generic_macro : Macro
generic_macro = record ready { activators = [] }

-- The same with a thread
abbrev pub busy : Macro
busy = record ready { thread_count = 1; threads = 1 }

pub ready-NotNull : NotNull (7 ∷ [])
ready-NotNull = (omega arith, tt)

pub ready-IsLimited : IsLimited 16 ready
ready-IsLimited = record {
  some_thread = omega arith;
  few_threads = omega arith;
  few_runs = omega arith;
}

abbrev pub settle : Macro → Macro
settle m = record m { thread_count = 0 }

-- A world that keeps the signals in the order in which they were sent
abbrev pub log : ℕ → List ℕ → List ℕ
log s w = w ++ (s ∷ [])

abbrev pub logged : ℕ → Scene (List ℕ) → Bool × Scene (List ℕ)
logged s r = (false, record r { world = log s r.world })

abbrev pub quiet : Environment (List ℕ)
quiet = record {
  dispatcher_of = λ s r. 0;
  dispatch = λ d s r. logged s r;
  send = logged;
  resumed = λ r. r;
}

abbrev pub scene : Scene (List ℕ)
scene = record { macro = ready; globals = record new_globals { active = 1 }; world = [] }
