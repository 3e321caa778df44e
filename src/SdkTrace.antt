-- ===== src/SdkTrace.antt =====
-- The package `sdk/trace`: samplers, the queues of a span's events and links, and the recording span.
pub mod EvictedQueue
pub mod Sampling
pub mod Span
pub mod Batch
pub mod Tracer
pub mod Provider
