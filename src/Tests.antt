-- ===== src/Tests.antt =====
-- The theorems at concrete inputs.
mod Tracing
mod Attributes
mod Baggages
mod Headers
mod Metrics
mod Resources
mod Spans
mod Processing
mod Providers
