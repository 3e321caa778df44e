-- ===== src/Lib.antt =====
-- The core of OpenTelemetry-Go: identifiers and trace states, baggage, their propagation in headers,
-- attribute sets and resources, the spans of the SDK, and its histograms.
--
-- How the parts work together. A span context (trace/trace.go) names a span: a trace and a span
-- identifier, flags, and a trace state (trace/tracestate.go), a list of vendors' members. The W3C
-- propagator (propagation/trace_context.go) writes the context of the current span
-- (trace/context.go) into the carrier of a request and reads it back at the other end. There a
-- sampler (sdk/trace/sampling.go) decides from the parent's context whether a span is recorded, and
-- a recording span (sdk/trace/span.go) collects attributes, events and links within limits; its
-- queues (sdk/trace/evictedqueue.go) evict the oldest entries. The tracer (sdk/trace/tracer.go) puts
-- these together when a span starts. `End` gives the processors a copy, and the batch processor
-- (sdk/trace/batch_span_processor.go) queues it for the exporter.
--
-- Attributes that are compared or looked up form a set (attribute/set.go), sorted in the slice of the
-- caller; two sets are read together by a merge iterator (attribute/iterator.go). A resource
-- (sdk/resource/resource.go) is a set with a schema URL: detectors give resources
-- (sdk/resource/auto.go), and Merge reads their sets together. Baggage (baggage/baggage.go) is a map of
-- members that the context of a program carries (internal/baggage/context.go) and that a second
-- propagator (propagation/baggage.go) writes into a header. The histogram aggregator of the metric SDK
-- (sdk/metric/aggregator/histogram/histogram.go) counts measurements in buckets; what it has counted is
-- moved to a checkpoint and merged there.
--
-- Which file models what. Children of a file hold its lemmas and results.
--   Prelude, Text, Hex            lists, strings, integers; what is used of the Go packages strings,
--                                 regexp, net/url and encoding/hex; Text/Utf8 has the characters
--                                 of a string
--   Trace/Errors, Trace/Id        errorConst, TraceID, SpanID, TraceFlags of trace/trace.go
--   Trace/State                   trace/tracestate.go: parse_trace_state is ParseTraceState,
--                                 to_string String, insert Insert, and so on
--   Trace/SpanContext             SpanContextConfig and SpanContext of trace/trace.go
--   Trace/Context                 trace/context.go
--   Propagation/Carrier           the carriers of propagation/propagation.go
--   Propagation/TraceContext      propagation/trace_context.go: inject and extract
--   Propagation/Baggage           propagation/baggage.go: inject_baggage and extract_baggage
--   Attribute                     attribute/key.go, value.go and kv.go
--   Attribute/Set                 attribute/set.go: new_set_filtered is NewSetWithSortableFiltered,
--                                 filter_set filterSet, value Value, equals Equals
--   Attribute/Encoder             attribute/encoder.go: default_encode is Encode
--   Attribute/Iterator            attribute/iterator.go, and Set.ToSlice and Set.Filter
--   Resource                      sdk/resource/resource.go and auto.go: merge is Merge, detect Detect;
--                                 Resource/Env has env.go: detect_from_env is fromEnv.Detect
--   Baggage                       baggage/baggage.go: Baggage has the properties and members with
--                                 their parsers, Baggage/Map the type Baggage, New and Parse,
--                                 Baggage/Context internal/baggage/context.go and baggage/context.go
--   SdkTrace/EvictedQueue         sdk/trace/evictedqueue.go
--   SdkTrace/Sampling             sdk/trace/sampling.go
--   SdkTrace/Span                 the data of sdk/trace/span.go, event.go, link.go, snapshot.go and
--                                 span_limits.go; Span/Attrs has SetAttributes and dedupeAttrs,
--                                 Span/Methods the other methods
--   SdkTrace/Tracer               sdk/trace/tracer.go: new_span is newSpan, start is Start
--   SdkTrace/Batch                sdk/trace/batch_span_processor.go: Batch has the operations, and
--                                 Batch/Steps the steps of its worker and callers
--   SdkTrace/Provider             the span processors of sdk/trace/provider.go
--   SdkMetric/Histogram           sdk/metric/aggregator/histogram/histogram.go
--   Tests                         the results at concrete inputs
--
-- How Go is read. A string is the list of its bytes, an array of bytes a list with its length as a
-- predicate (IsId). A method with a pointer receiver takes the state and returns the new one; each
-- method of a span runs as one step, though the source takes the span's lock twice, for
-- `IsRecording` and for the change. An error is a value of the data type of the package's error
-- constants, without the texts wrapped around it. A regular expression is a matcher written out
-- from it. A loop over the characters of a string reads a byte that is not valid UTF-8 as U+FFFD.
-- An `int` that counts is a natural number, a limit, which may be negative, an integer; lengths do
-- not come near 2 ^ 63, so overflow is not modelled; the `uint32` of dropped spans of the batch
-- processor and the `uint64` counts of a histogram wrap around. TraceFlags is a number below 256
-- and its only named bit is the remainder by 2. A `time.Time` is a number, 0 the zero time. A Go
-- map is an association list, in the order in which it is iterated. A loop over a list is
-- structural recursion. The others have fuel: the binary search of Set.Value the length of the
-- set, ToSlice, the encoder and the merge of two sets one round more than there are attributes,
-- TrimSpace the length of the string. A search interval at least halves, and the other loops use
-- up an attribute or a character in each round, so the fuel is enough.
--
-- What stands as a parameter. A carrier is any type with a `get` and a `set` where `get` finds
-- what `set` stored. A float is an abstract type with the operations of TraceIDRatioBased, and
-- their order; the product with 1 << 63 is exact, and its conversion to an integer rounds down
-- where the fraction is above 0 and under 1. Go leaves the conversion of any other to the
-- implementation, and nothing is assumed. A sampler from elsewhere is a function, and so is the
-- generator of identifiers. The batch processor's callers and worker interleave in any order: the
-- points between their steps are the ones where another goroutine can run. Whether two values that
-- are slices have one pointer, by which sets compare them, is a parameter; so are the hooks of a
-- baggage context, the detectors of resources, the numbers and floats of a histogram, and the
-- texts that strconv and fmt write for the values of an encoder.
--
-- What is not modelled: the detectors of resources that read the operating system, the tracers and
-- options of a provider, the simple span processor, the rest of the metric SDK, exporters, bridges,
-- schemas, and the global delegates; JSON; nil spans and nil sets; the header carrier of net/http, which
-- changes the case of keys; a batch processor whose MaxQueueSize is 0.
pub mod Prelude
pub mod Hex
pub mod Text
pub mod Trace
pub mod Propagation
pub mod SdkTrace
pub mod Attribute
pub mod Resource
pub mod Baggage
pub mod SdkMetric
pub mod Tests
