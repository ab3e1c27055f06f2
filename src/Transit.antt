-- ===== src/Transit.antt =====
-- rust/transit: binary serialization, heterogeneous queues and the parser of their bytes.
pub mod Bytes
mod Tests
pub mod Utf8
pub mod Strings
pub mod Value
pub mod Queue
pub mod Parser
