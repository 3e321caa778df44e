-- ===== src/SdkTrace/Tracer/Child.antt =====
-- The span context of a new span.
use opentelemetry_go.Prelude.{
  ℕ, ◌≡◌, refl, ap, ◌∙◌, Bool, true, false, inl, inr, Bool-cases, [], arith, if◌then◌else◌, Bytes,
}
use opentelemetry_go.Trace.Id.{trace_id_is_valid, is_sampled, with_sampled}
use opentelemetry_go.Trace.SpanContext.{SpanContext, is_valid, is_sampled_context}
use opentelemetry_go.Trace.Context.{Context, span_context_from_context}
use opentelemetry_go.SdkTrace.Sampling.{
  SamplingParameters, drop, record_and_sample, SamplingResult, Sampler, should_sample,
  new_parent_based, parent, decide,
}
use opentelemetry_go.SdkTrace.Span.{SpanLimits}
use opentelemetry_go.SdkTrace.Span.Attrs.Frame.{set_attributes-SameButAttrs}
use opentelemetry_go.SdkTrace.Tracer.{
  SpanConfig, IdGenerator, Provider, Span, non_recording_span, recording_span,
  is_recording_decision, is_sampled_decision, new_recording_span, choose_ids, sampled_span,
  new_child_span, new_span, context_of,
}
use opentelemetry_go.SdkTrace.Tracer.Frame.{add_links-SameButLinks}

span_context-new_recording_span :
    (limits : SpanLimits) (now : ℕ) (psc sc : SpanContext) (name : Bytes) (sr : SamplingResult)
    (config : SpanConfig)
    → (new_recording_span limits now psc sc name sr config).span_context ≡ sc
unfolding new_recording_span
span_context-new_recording_span limits now psc sc name sr config =
    ap (λ t. t.span_context) (set_attributes-SameButAttrs _ config.attributes).same
    ∙ ap (λ t. t.span_context) (set_attributes-SameButAttrs _ sr.attributes).same
    ∙ ap (λ t. t.span_context) (add_links-SameButLinks config.links _).same

-- Whether `Start` gives a span that records.
abbrev pub records : Span → Bool
records (non_recording_span sc) = false
records (recording_span s) = true

-- The span has the chosen identifiers and the sampler's trace state, and of the parent's flags the
-- sampled one is set as decided.
abbrev pub decided : SpanContext → Bytes × Bytes → SamplingResult → SpanContext
decided psc ids sr = record {
  trace_id = ids.0;
  span_id = ids.1;
  trace_flags = with_sampled psc.trace_flags (is_sampled_decision sr.decision);
  trace_state = sr.tracestate;
  remote = false;
}

sampled_span-lem :
    (limits : SpanLimits) (now : ℕ) (psc : SpanContext) (ids : Bytes × Bytes) (name : Bytes)
    (config : SpanConfig) (sr : SamplingResult)
    → (context_of (sampled_span limits now psc ids name config sr) ≡ decided psc ids sr)
      × (records (sampled_span limits now psc ids name config sr)
          ≡ is_recording_decision sr.decision)
unfolding sampled_span context_of
sampled_span-lem limits now psc ids name config sr =
    elim (Bool-cases (is_recording_decision sr.decision)) [
      | inr dropped ↦ rw dropped (refl, refl)
      | inl kept ↦
          rw kept (
            span_context-new_recording_span limits now psc (decided psc ids sr) name sr config,
            refl,
          )
    ]

with_sampled-is_sampled : (tf : ℕ) → with_sampled tf (is_sampled tf) ≡ tf
unfolding with_sampled is_sampled
with_sampled-is_sampled tf = ground arith

parent_based-result :
    (root : Sampler) (p : SamplingParameters)
    → is_valid (parent p) ≡ true
    → should_sample (new_parent_based root []) p
      ≡ decide (if is_sampled_context (parent p) then record_and_sample else drop) p
unfolding should_sample new_parent_based
parent_based-result root p valid = ground arith

decision_kept : (b : Bool) → is_sampled_decision (if b then record_and_sample else drop) ≡ b
unfolding is_sampled_decision
decision_kept true = refl
decision_kept false = refl

recorded_kept : (b : Bool) → is_recording_decision (if b then record_and_sample else drop) ≡ b
unfolding is_recording_decision
recorded_kept true = refl
recorded_kept false = refl

trace_id_valid : (sc : SpanContext) → is_valid sc ≡ true → trace_id_is_valid sc.trace_id ≡ true
unfolding is_valid
trace_id_valid sc h = ground arith

choose_ids-known :
    (g : IdGenerator) (ctx : Context) (psc : SpanContext)
    → trace_id_is_valid psc.trace_id ≡ true
    → choose_ids g ctx psc ≡ (psc.trace_id, g.new_span_id ctx psc.trace_id)
unfolding choose_ids
choose_ids-known g ctx psc h = rw h refl

-- The parameters that the sampler is given for the span.
abbrev asked : Context → Bytes → SpanConfig → Bytes × Bytes → SamplingParameters
asked ctx name config ids = record {
  parent_context = ctx;
  trace_id = ids.0;
  name = name;
  kind = config.span_kind;
  attributes = config.attributes;
  links = config.links;
}

new_span-new_child_span :
    (p : Provider) (now : ℕ) (ctx : Context) (name : Bytes) (config : SpanConfig)
    → config.new_root ≡ false
    → new_span p now ctx name config
      ≡ new_child_span p now ctx (span_context_from_context ctx) name config
unfolding new_span
new_span-new_child_span p now ctx name config not_root = simp not_root

new_span-sampled :
    (p : Provider) (root : Sampler) (now : ℕ) (ctx : Context) (name : Bytes) (config : SpanConfig)
    → p.sampler ≡ new_parent_based root []
    → config.new_root ≡ false
    → is_valid (span_context_from_context ctx) ≡ true
    → let psc = span_context_from_context ctx in
      let ids : Bytes × Bytes = (psc.trace_id, p.id_generator.new_span_id ctx psc.trace_id) in
      new_span p now ctx name config
      ≡ sampled_span p.span_limits now psc ids name config (
          decide
            (if is_sampled_context psc then record_and_sample else drop)
            (asked ctx name config ids))
unfolding new_child_span
new_span-sampled p root now ctx name config e not_root valid =
    let psc = span_context_from_context ctx in
    let ids : Bytes × Bytes = (psc.trace_id, p.id_generator.new_span_id ctx psc.trace_id) in
    new_span-new_child_span p now ctx name config not_root
    ∙ (ap
          (λ i.
            sampled_span p.span_limits now psc i name config
              (should_sample p.sampler (asked ctx name config i)))
          (choose_ids-known p.id_generator ctx psc (trace_id_valid psc valid))
        ∙ ap
            (λ s.
              sampled_span p.span_limits now psc ids name config
                (should_sample s (asked ctx name config ids)))
            e
        ∙ ap (sampled_span p.span_limits now psc ids name config)
            (parent_based-result root (asked ctx name config ids) valid))

-- With the parent based sampler, of any root and no options, a span that is started under a valid
-- parent, not as a new root, is in the parent's trace, with the parent's flags and trace state; it
-- has a new span identifier, is not remote, and records exactly if the parent is sampled.
pub new_span-child :
    (p : Provider) (root : Sampler) (now : ℕ) (ctx : Context) (name : Bytes) (config : SpanConfig)
    → p.sampler ≡ new_parent_based root []
    → config.new_root ≡ false
    → is_valid (span_context_from_context ctx) ≡ true
    → let psc = span_context_from_context ctx in
      (context_of (new_span p now ctx name config)
        ≡ record psc { span_id = p.id_generator.new_span_id ctx psc.trace_id; remote = false })
      × (records (new_span p now ctx name config) ≡ is_sampled_context psc)
new_span-child p root now ctx name config e not_root valid =
    let psc = span_context_from_context ctx in
    let ids : Bytes × Bytes = (psc.trace_id, p.id_generator.new_span_id ctx psc.trace_id) in
    let sr =
      decide (if is_sampled_context psc then record_and_sample else drop)
        (asked ctx name config ids) in
    let sampled = new_span-sampled p root now ctx name config e not_root valid in
    let (context, recorded) = sampled_span-lem p.span_limits now psc ids name config sr in
    let flags =
      ap (with_sampled psc.trace_flags) (decision_kept (is_sampled_context psc))
      ∙ with_sampled-is_sampled psc.trace_flags in
    (
      ap context_of sampled
          ∙ context
          ∙ ap {A = ℕ} {B = SpanContext}
              (λ f. record psc { span_id = ids.1; trace_flags = f; remote = false }) flags,
      ap records sampled ∙ recorded ∙ recorded_kept (is_sampled_context psc),
    )
