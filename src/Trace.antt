-- ===== src/Trace.antt =====
-- The package `trace`: identifiers and span contexts (trace/trace.go) and the W3C trace state
-- (trace/tracestate.go).
pub mod Errors
pub mod Id
pub mod State
pub mod SpanContext
pub mod Context
