-- ===== src/Propagation.antt =====
-- The package `propagation`: carriers of text pairs and the W3C trace context propagator.
pub mod Carrier
pub mod TraceContext
pub mod Baggage
