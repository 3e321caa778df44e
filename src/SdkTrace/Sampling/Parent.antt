-- ===== src/SdkTrace/Sampling/Parent.antt =====
-- A parent based sampler follows its parent, and samplers pass the trace state on.
use opentelemetry_go.Prelude.{◌≡◌, refl, true, [], arith, if◌then◌else◌}
use opentelemetry_go.Trace.SpanContext.{is_valid, is_sampled_context}
use opentelemetry_go.SdkTrace.Sampling.{
  SamplingParameters, drop, record_and_sample, Sampler, trace_id_ratio, always_on, always_off,
  parent_based, custom, parent, should_sample, new_parent_based,
}

-- With no options and a valid parent, the decision is to sample exactly if the parent is sampled,
-- whatever the root sampler, and whether the parent is remote or not.
pub parent_based-default :
    (root : Sampler) (p : SamplingParameters)
    → is_valid (parent p) ≡ true
    → (should_sample (new_parent_based root []) p).decision
      ≡ (if is_sampled_context (parent p) then record_and_sample else drop)
unfolding should_sample new_parent_based
parent_based-default root p valid = ground arith

-- The samplers of other implementations in `s` return the trace state of the parent.
abbrev pub PassesState : Sampler → Type 0
PassesState (trace_id_ratio bound text) = Unit
PassesState always_on = Unit
PassesState always_off = Unit
PassesState (parent_based root rs rn ls ln) =
    PassesState root × PassesState rs × PassesState rn × PassesState ls × PassesState ln
PassesState (custom f text) = (p : SamplingParameters) → (f p).tracestate ≡ (parent p).trace_state

-- Every sampler built of samplers that pass the parent's trace state on passes it on.
pub should_sample-tracestate :
    (s : Sampler) (p : SamplingParameters)
    → PassesState s
    → (should_sample s p).tracestate ≡ (parent p).trace_state
unfolding should_sample
should_sample-tracestate (trace_id_ratio bound text) p k = ground arith
should_sample-tracestate always_on p k = refl
should_sample-tracestate always_off p k = refl
should_sample-tracestate (parent_based root rs rn ls ln) p (k0, k1, k2, k3, k4) = ground (
  arith,
  should_sample-tracestate root p k0,
  should_sample-tracestate rs p k1,
  should_sample-tracestate rn p k2,
  should_sample-tracestate ls p k3,
  should_sample-tracestate ln p k4,
)
should_sample-tracestate (custom f text) p k = k p
