-- ===== src/Lib.antt =====
-- The macro library of mcr/ and src/, modelled by hand from its sources.
--
-- A context (src/libmacro.cpp) owns the registries and the generic dispatcher. A signal is sent, or
-- handed to a dispatcher (src/dispatcher.cpp), which asks its receivers whether to block it. A
-- receiver is a trigger (mcr/trigger.h), which has an actor act, or a macro (src/macro.cpp), which
-- starts a thread that sends the macro's signals. Interrupts change what the threads do, registries
-- name macros and the allocators of signals and triggers, and a serial (src/serial.cpp) names values.
--
-- Each file below is about one part, and its children about what is proved of it:
-- - Types: the enumerations of mcr/types.h and mcr/signal/interrupt.h.
-- - Flags: src/api.cpp and mcr/inline.h, on the words of Word.
-- - Signals: src/signal/modifier.cpp, src/signal/noop.cpp and mcr/signal/interrupt.h. The wrappers of
--   functions are in Trigger.
-- - Text: mcr/template/string_less_ci.h and the comparison of src/serial.cpp.
-- - Assoc: the standard maps, as association lists.
-- - Serial: src/serial.cpp; `Tables` has the tables and the cases, `Impl` the class.
-- - Dispatcher: src/dispatcher.cpp; `Interface` is what a macro relies on, with its laws, and `History`
--   has the receivers as a set, told from the calls that changed it.
-- - Trigger: mcr/trigger.h, src/trigger/action.cpp, and the functor wrappers.
-- - Error: mcr/error.h, and the results of calls.
-- - Macro: src/macro.cpp and mcr/macro.h. `State` has the fields of `MacroImpl`; `Dispatching` has
--   `_addDispatch`, `_removeDispatch` and `_applyDispatch`, over any dispatcher of the interface;
--   `Threads` has `limitMaxThreads`, the queue, `trySpawnThread` and `start`; `Control` has the
--   setters, `setInterruptor`, `clearThreads`, `resetThread` and the destructor; `Copying` has the
--   two `copy`, the assignment and the copy constructor; `Setting` has the steps of the setters and
--   copies between those of threads, and `Setting.Bounds` what they keep; `Run` has `run` of one thread. `Pool` is a
--   step relation for many threads, a step being what is done under a lock, and `Schedule` one with
--   the place of each thread in `run`, where a step is one test or one change; `Schedule.Clearing`
--   puts the steps of `clearThreads` between them, `Schedule.OwnClearing` those of a thread that
--   clears its own macro, and `Schedule.Resetting` those of `resetThread`.
-- - Library: a macro, its triggers and the dispatchers at their addresses, with the calls between
--   them: `receive` of the object at an address, the dispatch of a signal, and the deliveries of a
--   thread. `Triggering` is about a signal that starts a macro, `Chaining` about a macro that starts
--   another, `Keeping` about what a dispatch leaves.
-- - Program: a library with the signal objects of src/signal/ and mcr/signal/ at their addresses, the
--   modifiers of the contexts and the registries: what the signals do that a thread of a macro sends.
--   `Interrupts` is about an `Interrupt` to one macro, `Registered` about one to a registry, and
--   `Deliveries` about signals with dispatchers.
-- - Registry: src/macro_registry.cpp, src/signal_registry.cpp and src/trigger_registry.cpp.
-- - Context: src/libmacro.cpp and mcr/factory.h; `Parts` has the objects that a context owns, and
--   `Latest` the contexts told from the series of constructions and destructions.
-- - Locks: the mutexes of src/macro.cpp and src/libmacro.cpp. `Calls` has what each function does with
--   them, in a small language of scopes, choices, loops, exceptions and waits; `Threads` has the
--   threads that call these functions, a turn being one mutex taken or given back.
-- - ListView: mcr/template/list.h.
-- - Prelude and Word carry what the others share, and Tests the examples.
--
-- A pointer is its address, and 0 is null; what an object at an address does is a parameter. Names of
-- functions are those of the code in lower case with underscores. A call returns its result and the
-- new state, throws a code, or dereferences null (`crash`).
--
-- Fuel: the loop of `run` is given passes, and one more than the queued runs are enough for signals
-- that leave the macro alone. The loop that waits for threads in `clearThreadsSticky` is given rounds,
-- and one is enough if a wait ends the threads. The loop that prints a list needs one more round than
-- there are elements. The loop that counts shifts is given 64 steps, the width of the counter. An
-- `unsigned int` that the code raises or lowers by one wraps at 2 ^ 32.
--
-- Parameters: the `act` of an actor, the `receive` of a receiver, the allocators, the deliveries of
-- signals, the end of a wait, and whether the system can make a thread. Their hypotheses are named
-- `Settles` (a wait on the threads ends them and changes nothing else) and `IsQuiet` (a delivery does
-- not throw and leaves the macro alone). What `run` does alone is compared with `Schedule` for
-- deliveries that only add to the signals sent. The order in which an unordered set or map is walked
-- is the order of a list.
--
-- Not modelled: calls of others while a reset thread or a `clearThreads` is at work (in `Resetting` and
-- `Clearing` only these and the macro's threads take steps), a `FunctorSignal` as an object of
-- `Program`, data races on one field (in `Schedule` each test of a thread is a step, but `sticky` and
-- `threadCount` are read in one, the two tests before a signal is sent are one, and so are the test
-- and the change within `decQueued`, and a call of `start`), the change of a dispatcher by another
-- thread while it walks its receivers, a dispatcher of the user's that takes a mutex itself, the
-- release of memory, messages, output, the platforms' headers, and play/, which tries out C++ and does
-- not use the library. In `Pool` and `Schedule` the global limit stands still, `run` on the thread of a
-- caller is no step, nor is what a setter or a copy does with dispatchers, and the assignment of a
-- `copy` is one only where no thread is counted: a thread that has been made before `disableEverything`
-- and enters after it walks a vector that is changed under it, which has no meaning in C++. An address
-- 0 among the activators or the signals of a macro counts as an object without a dispatcher: the
-- setters take the addresses of the elements of an array and put no null there.
pub mod Prelude
pub mod Word
pub mod Types
pub mod Flags
pub mod Signals
pub mod Text
pub mod Assoc
pub mod Serial
pub mod Dispatcher
pub mod Trigger
pub mod Error
pub mod Macro
pub mod Library
pub mod Program
pub mod Registry
pub mod Context
pub mod ListView
pub mod Locks
pub mod Tests
