-- ===== src/Analytics.antt =====
-- rust/analytics: from the events of a block to call trees, span rows and event rows.
mod Tests
pub mod Time
pub mod Scope
pub mod Block
pub mod Columns
pub mod LogEntry
pub mod Measure
pub mod ThreadBlock
pub mod ThreadEvents
pub mod CallTree
pub mod SpanTable
pub mod QuerySpans
