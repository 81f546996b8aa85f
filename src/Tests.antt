-- ===== src/Tests.antt =====
-- Examples: each theorem at a concrete input, and what some definitions compute.
mod Data
mod Dispatch
mod Locks
mod Schedule
mod Composition
mod Control
mod Threads
mod Values
mod Tables
mod Clearing
mod Program
mod Resetting
