-- ===== src/Levels.antt =====
-- rust/tracing/src/levels.rs: log levels, verbosities, their filters, and the process-wide maxima.
-- `Names` and `Compare` hold what the four enumerations share.
pub mod Names
pub mod Compare
pub mod Level
pub mod LevelFilter
pub mod Verbosity
pub mod LodFilter
pub mod MaxLevel
pub mod Order
pub mod Parsing
mod Tests
