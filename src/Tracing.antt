-- ===== src/Tracing.antt =====
-- rust/tracing: what a process records, and how the events reach its sinks.
pub mod Tests
pub mod LogEvents
pub mod LogFilter
pub mod Dispatch
pub mod FlushMonitor
pub mod Stream
pub mod Dependencies
pub mod Recording
pub mod Metrics
pub mod Spans
pub mod ThreadEvents
