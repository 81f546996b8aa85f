-- ===== src/Locks.antt =====
-- The mutexes of src/macro.cpp and src/libmacro.cpp: what a function does with them, and what the
-- threads that call such functions do together. `Calls` has the functions; here is their language.
pub mod Calls
pub mod Tracing
pub mod Threads
pub mod Ordering
pub mod Progress
use libmacro.Prelude.{
  ℕ, List, [], ◌∷◌, ◌++◌, Option, none, some, Bool, true, false, ◌==◌, ◌&&◌, if◌then◌else◌,
}

-- `_mutex` of the macro at an address, `g_globalThreadMutex`, and `_registryMutex`
pub data Mutex : Type 0 where
  own : ℕ → Mutex
  global registry : Mutex

abbrev pub same_mutex : Mutex → Mutex → Bool
same_mutex (own i) (own j) = i == j
same_mutex (own i) global = false
same_mutex (own i) registry = false
same_mutex global (own j) = false
same_mutex global global = true
same_mutex global registry = false
same_mutex registry (own j) = false
same_mutex registry global = false
same_mutex registry registry = true

-- What matters of a statement: `within` is the scope of a lock, which ends with the statement, also
-- by an exception; `blocks` is a wait for other threads; `throws` may throw.
pub data Code : Type 0 where
  nothing throws blocks : Code
  within : Mutex → Code → Code
  seq either : Code → Code → Code
  loop catches : Code → Code

-- What a thread does that another can notice
pub data Event : Type 0 where
  acquire release : Mutex → Event
  block : Event

-- The events of a run of some code, and whether it ended by an exception
pub data Trace : Code → List Event → Bool → Type 0 where
  nothing_done : Trace nothing [] false
  passed : Trace throws [] false
  thrown : Trace throws [] true
  blocked : Trace blocks (block ∷ []) false
  locked :
      {x : Mutex} {c : Code} {es : List Event} {b : Bool}
      → Trace c es b
      → Trace (within x c) (acquire x ∷ (es ++ (release x ∷ []))) b
  both :
      {c d : Code} {es fs : List Event} {b : Bool}
      → Trace c es false
      → Trace d fs b
      → Trace (seq c d) (es ++ fs) b
  cut_short : {c d : Code} {es : List Event} → Trace c es true → Trace (seq c d) es true
  first : {c d : Code} {es : List Event} {b : Bool} → Trace c es b → Trace (either c d) es b
  second : {c d : Code} {es : List Event} {b : Bool} → Trace d es b → Trace (either c d) es b
  caught : {c : Code} {es : List Event} {b : Bool} → Trace c es b → Trace (catches c) es false
  no_round : {c : Code} → Trace (loop c) [] false
  round :
      {c : Code} {es fs : List Event} {b : Bool}
      → Trace c es false
      → Trace (loop c) fs b
      → Trace (loop c) (es ++ fs) b
  broken : {c : Code} {es : List Event} → Trace c es true → Trace (loop c) es true

-- The order of the mutexes: the global one may be taken while one macro's is held, and no other
-- while any is held.
abbrev pub may_acquire : List Mutex → Mutex → Bool
may_acquire [] x = true
may_acquire (own i ∷ []) global = true
may_acquire (own i ∷ []) (own j) = false
may_acquire (own i ∷ []) registry = false
may_acquire (own i ∷ y ∷ h) x = false
may_acquire (global ∷ h) x = false
may_acquire (registry ∷ h) x = false

abbrev pub holds_none : List Mutex → Bool
holds_none [] = true
holds_none (x ∷ h) = false

-- The mutexes that a thread holds after an event, the last taken first, if it keeps the order, gives
-- back the last one first, and holds none where it waits
abbrev pub step : List Mutex → Event → Option (List Mutex)
step h (acquire x) = if may_acquire h x then some (x ∷ h) else none
step [] (release x) = none
step (y ∷ h) (release x) = if same_mutex y x then some h else none
step [] block = some []
step (y ∷ h) block = none
