-- ===== src/Registry.antt =====
-- src/macro_registry.cpp, src/signal_registry.cpp and src/trigger_registry.cpp: names of macros, and
-- of allocators of signals and triggers. A null pointer where the code makes a `std::string` of it
-- is undefined behaviour and outside the model, and so are the allocators with a null function, on
-- which the code asserts.
pub mod Macros
pub mod Signals
pub mod Triggers
