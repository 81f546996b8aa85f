-- ===== src/Signals.antt =====
-- The signals of mcr/signal/ and src/signal/: what `send` does to the state that it can reach.
pub mod Modifier
pub mod NoOp
pub mod Interrupting
