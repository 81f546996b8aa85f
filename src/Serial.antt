-- ===== src/Serial.antt =====
-- src/serial.cpp and mcr/serial.h: names for the values of the enumerations. `Tables` has the
-- built-in names, `Impl` the class, and the other children prove what holds of it.
pub mod Tables
pub mod Impl
pub mod IgnoresCase
pub mod RoundTrip
pub mod Extension
pub mod Counts
pub mod Ranges
