-- ===== src/Sink.antt =====
-- rust/telemetry-sink: where the events of a process go.
mod Tests
pub mod Composite
pub mod Http
