-- ===== src/Locks/Threads.antt =====
-- Threads that each have events to go, on mutexes that one of them can hold at a time.
use libmacro.Prelude.{◌≡◌, List, [], ◌∷◌, ◌++◌, Bool, false, ◌||◌, if◌then◌else◌}
use libmacro.Locks.{Mutex, Code, Event, acquire, release, block, Trace, same_mutex}
use libmacro.Locks.Calls.{IsCall}

-- The mutexes that a thread holds, the last taken first, and what it does from here
pub record Thread : Type 0 where
  pub held : List Mutex
  pub rest : List Event

abbrev pub holds : Mutex → List Mutex → Bool
holds x [] = false
holds x (y ∷ h) = same_mutex y x || holds x h

abbrev pub is_held : Mutex → List Thread → Bool
is_held x [] = false
is_held x (t ∷ ts) = holds x t.held || is_held x ts

abbrev pub give_back : Mutex → List Mutex → List Mutex
give_back x [] = []
give_back x (y ∷ h) = if same_mutex y x then h else y ∷ give_back x h

-- A thread takes a mutex that no thread holds, itself included, or gives one back.
pub data LockTurn (ts : List Thread) : List Thread → Type 0 where
  takes :
      (t : Thread) (x : Mutex) (es : List Event) (before after : List Thread)
      → ts ≡ before ++ t ∷ after
      → t.rest ≡ acquire x ∷ es
      → is_held x ts ≡ false
      → LockTurn ts (before ++ record { held = x ∷ t.held; rest = es } ∷ after)
  gives :
      (t : Thread) (x : Mutex) (es : List Event) (before after : List Thread)
      → ts ≡ before ++ t ∷ after
      → t.rest ≡ release x ∷ es
      → LockTurn ts (before ++ record { held = give_back x t.held; rest = es } ∷ after)

-- A turn of some thread, which may also find its wait for the others over
pub data AnyTurn (ts : List Thread) : List Thread → Type 0 where
  locking : {us : List Thread} → LockTurn ts us → AnyTurn ts us
  goes_on :
      (t : Thread) (es : List Event) (before after : List Thread)
      → ts ≡ before ++ t ∷ after
      → t.rest ≡ block ∷ es
      → AnyTurn ts (before ++ record { held = t.held; rest = es } ∷ after)

pub data AllTurns (ts : List Thread) : List Thread → Type 0 where
  none_yet : AllTurns ts ts
  one_more : {us vs : List Thread} → AllTurns ts us → AnyTurn us vs → AllTurns ts vs

-- A thread before a call, whatever the call will do
abbrev pub IsStarted : Thread → Type 0
IsStarted t = (c : Code) × (b : Bool) × IsCall c × (t.held ≡ []) × Trace c t.rest b
