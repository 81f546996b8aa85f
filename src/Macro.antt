-- ===== src/Macro.antt =====
-- src/macro.cpp and mcr/macro.h: the macro, which sends its signals from threads of its own and is
-- registered with dispatchers. `State` has its fields, `Dispatching` the registrations, `Threads`
-- the queue and the start of a thread, `Control` the setters, `Copying` the copies, `Setting` both as steps, `Run` the loop
-- of one thread, `Pool` the interleavings of what threads do under a lock, and `Schedule` those of
-- every step of each thread.
pub mod State
pub mod Dispatching
pub mod Threads
pub mod Control
pub mod Copying
pub mod Setting
pub mod Run
pub mod Pool
pub mod Schedule
