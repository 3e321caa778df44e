-- ===== src/SdkTrace/Tracer/Limits.antt =====
-- A new recording span is within its limits.
use mathlib.Core.Path.{subst}
use opentelemetry_go.Prelude.{ℕ, ◌≤◌, ◌≡◌, sym, ap, ◌∙◌, Bytes, length, arith}
use opentelemetry_go.Prelude.Int.{pos}
use opentelemetry_go.Trace.SpanContext.{SpanContext}
use opentelemetry_go.SdkTrace.Sampling.{SamplingResult}
use opentelemetry_go.SdkTrace.Span.{SpanLimits}
use opentelemetry_go.SdkTrace.Span.Attrs.Frame.{set_attributes-SameButAttrs}
use opentelemetry_go.SdkTrace.Span.Attrs.Limit.{set_attributes-within}
use opentelemetry_go.SdkTrace.Tracer.{SpanConfig, add_links, new_recording_span}
use opentelemetry_go.SdkTrace.Tracer.Frame.{add_links-SameButLinks}

-- With a limit of `n` attributes, 0 included, a new recording span has at most `n`, whatever
-- attributes the sampler and the caller give and whatever links it has.
pub new_recording_span-within :
    (limits : SpanLimits) (now : ℕ) (psc sc : SpanContext) (name : Bytes) (sr : SamplingResult)
    (config : SpanConfig) (n : ℕ)
    → limits.attribute_count_limit ≡ pos n
    → length (new_recording_span limits now psc sc name sr config).attributes ≤ n
unfolding new_recording_span
new_recording_span-within limits now psc sc name sr config n e =
    let linked = (add_links-SameButLinks config.links _).same in
    let limit : _ ≡ pos n = ap (λ t. t.limits.attribute_count_limit) linked ∙ e in
    let none_yet : length _ ≤ n =
      subst (λ l. length l ≤ n) (sym (ap (λ t. t.attributes) linked)) (omega arith) in
    let sampled = (set_attributes-SameButAttrs (add_links _ config.links) sr.attributes).same in
    set_attributes-within _ n config.attributes
      (ap (λ t. t.limits.attribute_count_limit) sampled ∙ limit)
      (set_attributes-within _ n sr.attributes limit none_yet)
