-- ===== src/SdkTrace/Sampling.antt =====
-- sdk/trace/sampling.go: samplers. The interface `Sampler` is the data type of the samplers that
-- the package builds, with a constructor for any other implementation. Of `SamplingParameters` the
-- samplers here read the parent context and the trace identifier.
pub mod Parent
pub mod Ratio
use opentelemetry_go.Prelude.{
  ℕ, ◌+◌, ◌*◌, ◌/◌, Bool, true, false, List, [], ◌∷◌, ◌++◌, ltb, if◌then◌else◌, Bytes, codes, take,
}
use opentelemetry_go.Attribute.{KeyValue}
use opentelemetry_go.Trace.State.{TraceState}
use opentelemetry_go.Trace.SpanContext.{SpanContext, is_valid, is_sampled_context}
use opentelemetry_go.Trace.Context.{Context, span_context_from_context}

pub record SamplingParameters : Type 0 where
  pub parent_context : Context
  pub trace_id : Bytes
  pub name : Bytes
  pub kind : ℕ
  pub attributes : List KeyValue
  -- a link is its span context and attributes
  pub links : List (SpanContext × List KeyValue)

pub data SamplingDecision : Type 0 where
  drop record_only record_and_sample : SamplingDecision

pub record SamplingResult : Type 0 where
  pub decision : SamplingDecision
  pub attributes : List KeyValue
  pub tracestate : TraceState

pub data Sampler : Type 0 where
  -- `traceIDRatioSampler`: the upper bound and the description
  trace_id_ratio : ℕ → Bytes → Sampler
  always_on : Sampler
  always_off : Sampler
  -- `parentBased`: the root, then the fields of `samplerConfig` in order
  parent_based : Sampler → Sampler → Sampler → Sampler → Sampler → Sampler
  -- another implementation of the interface: `ShouldSample` and `Description`
  custom : (SamplingParameters → SamplingResult) → Bytes → Sampler

-- `trace.SpanContextFromContext(p.ParentContext)`
abbrev pub parent : SamplingParameters → SpanContext
parent p = span_context_from_context p.parent_context

-- `SamplingResult` with no attributes and the trace state of the parent
abbrev pub decide : SamplingDecision → SamplingParameters → SamplingResult
decide decision p = record {
  decision = decision;
  attributes = [];
  tracestate = (parent p).trace_state;
}

big_endian : ℕ → Bytes → ℕ
big_endian acc [] = acc
big_endian acc (b ∷ bs) = big_endian (acc * 256 + b) bs

-- `binary.BigEndian.Uint64(p.TraceID[0:8]) >> 1`
unfoldable pub ratio_input : Bytes → ℕ
unfolding big_endian
ratio_input trace_id = big_endian 0 (take 8 trace_id) / 2

-- `traceIDRatioSampler.ShouldSample`
abbrev pub ratio_should_sample : ℕ → SamplingParameters → SamplingResult
ratio_should_sample bound p =
    if ltb (ratio_input p.trace_id) bound then decide record_and_sample p else decide drop p

-- `ShouldSample` of each of the samplers; the text of `parentBased` stands in its clause
unfoldable pub should_sample : Sampler → SamplingParameters → SamplingResult
should_sample (trace_id_ratio bound description) p = ratio_should_sample bound p
should_sample always_on p = decide record_and_sample p
should_sample always_off p = decide drop p
should_sample (parent_based root remote_sampled remote_not local_sampled local_not) p =
    let psc = parent p in
    let from_root = should_sample root p in
    let from_remote_sampled = should_sample remote_sampled p in
    let from_remote_not = should_sample remote_not p in
    let from_local_sampled = should_sample local_sampled p in
    let from_local_not = should_sample local_not p in
    if is_valid psc
    then (if psc.remote
        then if is_sampled_context psc then from_remote_sampled else from_remote_not
        else if is_sampled_context psc
        then from_local_sampled
        else from_local_not)
    else from_root
should_sample (custom f description) p = f p

-- `samplerConfig`
pub record SamplerConfig : Type 0 where
  pub remote_parent_sampled : Sampler
  pub remote_parent_not_sampled : Sampler
  pub local_parent_sampled : Sampler
  pub local_parent_not_sampled : Sampler

-- `ParentBasedSamplerOption`
pub data SamplerOption : Type 0 where
  with_remote_parent_sampled : Sampler → SamplerOption
  with_remote_parent_not_sampled : Sampler → SamplerOption
  with_local_parent_sampled : Sampler → SamplerOption
  with_local_parent_not_sampled : Sampler → SamplerOption

-- `apply`
unfoldable pub apply_option : SamplerOption → SamplerConfig → SamplerConfig
apply_option (with_remote_parent_sampled s) config = record config { remote_parent_sampled = s }
apply_option (with_remote_parent_not_sampled s) config = record config {
  remote_parent_not_sampled = s;
}
apply_option (with_local_parent_sampled s) config = record config { local_parent_sampled = s }
apply_option (with_local_parent_not_sampled s) config = record config {
  local_parent_not_sampled = s;
}

apply_options : List SamplerOption → SamplerConfig → SamplerConfig
unfolding apply_option
apply_options [] c = c
apply_options (so ∷ samplers) c = apply_options samplers (apply_option so c)

-- `configureSamplersForParentBased`
unfoldable pub configure_samplers : List SamplerOption → SamplerConfig
unfolding apply_options
configure_samplers samplers = apply_options samplers (record {
  remote_parent_sampled = always_on;
  remote_parent_not_sampled = always_off;
  local_parent_sampled = always_on;
  local_parent_not_sampled = always_off;
})

-- `ParentBased`
unfoldable pub new_parent_based : Sampler → List SamplerOption → Sampler
unfolding configure_samplers
new_parent_based root samplers =
    let c = configure_samplers samplers in
    parent_based root c.remote_parent_sampled c.remote_parent_not_sampled c.local_parent_sampled
      c.local_parent_not_sampled

-- `Description`
unfoldable pub description : Sampler → Bytes
description (trace_id_ratio bound text) = text
description always_on = codes "AlwaysOnSampler"
description always_off = codes "AlwaysOffSampler"
description (parent_based root remote_sampled remote_not local_sampled local_not) =
    codes "ParentBased{root:"
    ++ (description root
        ++ (codes ",remoteParentSampled:"
            ++ (description remote_sampled
                ++ (codes ",remoteParentNotSampled:"
                    ++ (description remote_not
                        ++ (codes ",localParentSampled:"
                            ++ (description local_sampled
                                ++ (codes ",localParentNotSampled:"
                                    ++ (description local_not ++ codes "}")))))))))
description (custom f text) = text

-- `float64`, of which the language's text has no more than `TraceIDRatioBased` uses
pub record Fractions : Type 1 where
  pub Fraction : Type 0
  -- `fraction >= 1`
  pub ge_one : Fraction → Bool
  -- `fraction <= 0`
  pub le_zero : Fraction → Bool
  pub zero : Fraction
  -- `uint64(fraction * (1 << 63))`; what it is outside 0 to 1 depends on the implementation of Go
  pub scaled : Fraction → ℕ
  -- `fmt.Sprintf("TraceIDRatioBased{%g}", fraction)`
  pub shown : Fraction → Bytes

module _ (fs : Fractions) where
  open fs use {Fraction, ge_one, le_zero, zero, scaled, shown}

  -- `TraceIDRatioBased`
  unfoldable pub trace_id_ratio_based : Fraction → Sampler
  trace_id_ratio_based fraction =
      if ge_one fraction
      then always_on
      else let used = if le_zero fraction then zero else fraction in
        trace_id_ratio (scaled used) (shown used)
