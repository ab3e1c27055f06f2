-- ===== src/Lib.antt =====
-- Verification of micromegas, an observability stack in Rust: processes record logs, metrics and
-- spans into in-memory queues (rust/tracing on top of rust/transit), a sink sends the blocks of events
-- to a server, and the analytics library (rust/analytics) decodes them and rebuilds the call tree of a
-- thread from its scope events.
--
-- Which file models which part:
--
--   Prelude and below       lists over the native natural numbers, results with their errors, machine
--                           integers (i64 as ℤ with wrap-around) and hash maps.
--   Levels and below        rust/tracing/src/levels.rs: Level, LevelFilter, Verbosity and LodFilter with
--                           their comparisons and parsers, and the global maxima.
--   Transit.Bytes           write_any and read_any of rust/transit/src/serialize.rs.
--   Transit.Utf8            the standard library's UTF-8 decoders, which the readers of strings call.
--   Transit.Strings         rust/transit/src/dyn_string.rs and rust/transit/src/parse_string.rs.
--   Transit.Value           the objects and values of rust/transit/src/parser.rs with their casts, and
--                           rust/transit/src/reflect.rs.
--   Transit.Parser          the rest of rust/transit/src/parser.rs: plain instances, custom instances
--                           (Custom), the loop over objects (Objects) and the dependencies
--                           (Dependencies).
--   Transit.Queue           the queue that declare_queue_struct! generates
--                           (rust/transit/derive/src/declare_queue.rs), and its iterator.
--   Tracing.LogEvents       the log events of rust/tracing/src/logs/events.rs and their queue.
--   Tracing.LogFilter       the level filter of LogMetadata in rust/tracing/src/logs/events.rs, with the
--                           compare-exchange loop as single accesses of threads.
--   Tracing.Dependencies    the dependencies that rust/tracing/src/logs/block.rs extracts from a block,
--                           their queue, and what the parser reads from it.
--   Tracing.Metrics         rust/tracing/src/metrics: the events and their dependencies.
--   Tracing.Spans           rust/tracing/src/spans: the events and their dependencies, with Recording for
--                           what metrics and spans share.
--   Tracing.Stream          rust/tracing/src/event/stream.rs and rust/tracing/src/event/block.rs, and
--                           the filling and flushing of streams in rust/tracing/src/dispatch.rs.
--   Tracing.FlushMonitor    rust/tracing/src/flush_monitor.rs.
--   Tracing.Dispatch        the handlers of logs in rust/tracing/src/dispatch.rs.
--   Tracing.ThreadEvents    the handlers of the spans of a thread in rust/tracing/src/dispatch.rs.
--   Analytics.Time          rust/analytics/src/time.rs, over abstract floats.
--   Analytics.Scope         rust/analytics/src/scope.rs.
--   Analytics.Block         parse_block of rust/analytics/src/lib.rs.
--   Analytics.LogEntry      rust/analytics/src/log_entry.rs.
--   Analytics.Measure       rust/analytics/src/measure.rs.
--   Analytics.ThreadBlock   rust/analytics/src/thread_block_processor.rs.
--   Analytics.ThreadEvents  rust/analytics/src/thread_events_table.rs.
--   Analytics.CallTree      rust/analytics/src/call_tree.rs.
--   Analytics.Columns       the string columns of the tables below.
--   Analytics.SpanTable     rust/analytics/src/span_table.rs.
--   Analytics.QuerySpans    rust/analytics/src/query_spans.rs.
--   Sink.Composite          rust/telemetry-sink/src/composite_event_sink.rs.
--   Sink.Http               rust/telemetry-sink/src/http_event_sink.rs, with the steps of the handlers and
--                           of the thread in any order.
--
-- A buffer is the list of its bytes and a pointer into it an offset; a reference to a static value is
-- its address. A read out of the bounds of a buffer, which is undefined in Rust, is an error of the
-- model, so that a theorem with a result shows that there is none. The panics are errors too. Integers
-- of a machine type wrap around as in a release build; the lengths and offsets of buffers, which
-- memory bounds, do not. The end of an object that the parser computes from a declared size may lie
-- behind the buffer, and wraps around there. Iterating over a queue takes fuel, and the
-- length of the buffer is always enough, since every object takes at least one byte; the loops of the
-- parser have the same fuel, which is enough where the declared sizes are those of values that memory
-- holds. The counter of the HTTP sink wraps around, too; that it counts is shown for fewer than 2^63
-- steps. The recursion of the parser over the types of members takes fuel for the
-- depth of the stack, which is enough where no type holds a value of itself.
--
-- Outside of the model: the floats of the processor, the lz4 decompression, the hash function of the
-- xxhash crate, the keys that a string column of the arrow crate has left, the UTF-16
-- decoder and the memory layout that the compiler gives to a struct are parameters. The database, the
-- object storage, HTTP and the arrow and parquet formats are not modelled, nor is the rest of the
-- instrumentation library (the global dispatch and the sinks that talk to the network).
pub mod Prelude
pub mod Levels
pub mod Transit
pub mod Tracing
pub mod Analytics
pub mod Sink
