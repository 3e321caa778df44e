-- ===== src/SdkMetric.antt =====
-- The package `sdk/metric`: the histogram aggregator.
pub mod Histogram
