-- ===== src/Trace/SpanContext/Equality.antt =====
-- `SpanContext.Equal` compares trace states by their texts, and still decides equality.
use opentelemetry_go.Prelude.{◌≡◌, sym, ◌∙◌, ap, true, ◌↔◌, arith, eq_bytes_iff, eq_bytes_refl}
use opentelemetry_go.Trace.Errors.{ok}
use opentelemetry_go.Trace.State.{TraceState, to_string, parse_trace_state}
use opentelemetry_go.Trace.State.WellFormed.{IsWellFormed}
use opentelemetry_go.Trace.State.RoundTrip.{parse_trace_state-to_string}
use opentelemetry_go.Trace.SpanContext.{SpanContext, equal, eq_bool}

-- Well-formed trace states with one text are equal.
to_string-injective :
    (a b : TraceState) → IsWellFormed a → IsWellFormed b → to_string a ≡ to_string b → a ≡ b
to_string-injective a b v w e = same (
    sym (parse_trace_state-to_string a v)
    ∙ ap parse_trace_state e
    ∙ parse_trace_state-to_string b w)
  where
    same : ok a ≡ ok b → a ≡ b
    same h = cc

-- On span contexts with well-formed trace states, `Equal` is true exactly of equal ones.
pub equal_iff :
    (a b : SpanContext)
    → IsWellFormed a.trace_state
    → IsWellFormed b.trace_state
    → (equal a b ≡ true) ↔ (a ≡ b)
unfolding equal eq_bool
equal_iff a b v w = (forward, λ e. rw e (unfold equal in same b))
  where
    forward : equal a b ≡ true → a ≡ b
    forward h =
        let state : a.trace_state ≡ b.trace_state =
          to_string-injective a.trace_state b.trace_state v w
            ((eq_bytes_iff _ _).0 (ground arith)) in
        ground (arith, state, eq_bytes_iff a.trace_id b.trace_id, eq_bytes_iff a.span_id b.span_id)

    same : (c : SpanContext) → equal c c ≡ true
    same c = ground (
      arith,
      eq_bytes_refl c.trace_id,
      eq_bytes_refl c.span_id,
      eq_bytes_refl (to_string c.trace_state),
    )
