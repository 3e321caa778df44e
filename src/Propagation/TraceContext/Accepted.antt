-- ===== src/Propagation/TraceContext/Accepted.antt =====
-- What the headers must hold for `extract` to return a span context.
use mathlib.Core.Path.{subst}
use opentelemetry_go.Prelude.{
  ℕ, ◌≤◌, ◌≡◌, refl, Bool, true, false, not, ◌&&◌, inl, inr, Bool-cases, [], Option, none, some,
  arith, ◌==◌, ltb, Bytes, eq_bytes, take,
}
use opentelemetry_go.Trace.Errors.{Result, ok, err, value_or}
use opentelemetry_go.Trace.Id.{IsId, id_string, trace_id_from_hex, span_id_from_hex, sampled_bit}
use opentelemetry_go.Trace.Id.Parse.{trace_id_from_hex_iff, span_id_from_hex_iff}
use opentelemetry_go.Trace.State.{empty, parse_trace_state}
use opentelemetry_go.Trace.SpanContext.{SpanContext, zero_span_context, new_span_context, is_valid}
use opentelemetry_go.Propagation.TraceContext.{
  Groups, ◌>>=◌, or_zero, match_traceparent, first_byte, extract_groups, extract_headers, refuse_if,
  or_refuse, max_version,
}
use opentelemetry_go.Propagation.TraceContext.Grammar.{
  Header, match_traceparent-eq-some, >>=-returns,
}

-- The span context is that of the groups, and the groups are in range.
pub record Reads (g : Groups) (tracestate : Bytes) (sc : SpanContext) : Type 0 where
  pub version : ℕ
  pub flags : ℕ
  pub version_read : first_byte g.version ≡ some version
  pub version_known : version ≤ max_version
  pub flags_read : first_byte g.trace_flags ≡ some flags
  pub flags_known : version ≡ 0 → flags ≤ 2
  pub trace_id_ok : IsId 16 sc.trace_id
  pub trace_id_read : id_string sc.trace_id ≡ take 32 g.trace_id
  pub span_id_ok : IsId 8 sc.span_id
  pub span_id_read : id_string sc.span_id ≡ g.span_id
  pub sampled_only : sc.trace_flags ≡ sampled_bit flags
  pub state_read : sc.trace_state ≡ value_or empty (parse_trace_state tracestate)
  pub is_remote : sc.remote ≡ true
  pub valid : is_valid sc ≡ true

refuse_if-some :
    (b : Bool) (o : Option SpanContext) {sc : SpanContext}
    → refuse_if b o ≡ some sc
    → (b ≡ false) × (o ≡ some sc)
refuse_if-some true o h = cc
refuse_if-some false o h = (refl, h)

or_refuse-some : (r : Result Bytes) {t : Bytes} → or_refuse r ≡ some t → r ≡ ok t
or_refuse-some (ok a) h = cc
or_refuse-some (err e) h = cc

abbrev built : Bytes → Bytes → Bytes → ℕ → SpanContext
built tracestate t s opts = new_span_context (record {
  trace_id = t;
  span_id = s;
  trace_flags = sampled_bit opts;
  trace_state = value_or empty (parse_trace_state tracestate);
  remote = true;
})

some-eq : {a b : SpanContext} → some a ≡ some b → a ≡ b
some-eq h = cc

last_tests :
    (g : Groups) (tracestate : Bytes) (version opts : ℕ) (t s : Bytes) {sc : SpanContext}
    → refuse_if
        (version == 0 && ltb 2 opts)
        (refuse_if (not (is_valid (built tracestate t s opts))) (some (built tracestate t s opts)))
      ≡ some sc
    → first_byte g.version ≡ some version
    → version ≤ 254
    → first_byte g.trace_flags ≡ some opts
    → IsId 16 t
    → id_string t ≡ take 32 g.trace_id
    → IsId 8 s
    → id_string s ≡ g.span_id
    → Reads g tracestate sc
last_tests g tracestate version opts t s {sc} h v k f ti t_read si s_read =
    let (known, h1) = refuse_if-some (version == 0 && ltb 2 opts) _ h in
    let (valid, h2) =
      refuse_if-some (not (is_valid (built tracestate t s opts))) (some (built tracestate t s opts))
        h1 in
    subst (Reads g tracestate) (some-eq h2) (record {
      version = version;
      flags = opts;
      version_read = v;
      version_known = k;
      flags_read = f;
      flags_known = λ z. ground arith;
      trace_id_ok = ti;
      trace_id_read = t_read;
      span_id_ok = si;
      span_id_read = s_read;
      sampled_only = refl;
      state_read = refl;
      is_remote = refl;
      valid = ground arith;
    })

extract_groups-Reads :
    (g : Groups) (tracestate : Bytes) (sc : SpanContext)
    → extract_groups g tracestate ≡ some sc
    → Reads g tracestate sc
unfolding extract_groups
extract_groups-Reads g tracestate sc e =
    >>=-returns (first_byte g.version) _ (refuse_if-some _ _ e).1 λ version v h1.
      let (k, h2) = refuse_if-some (ltb max_version version) _ h1 in
      let h3 = (refuse_if-some _ _ (refuse_if-some _ _ h2).1).1 in
      >>=-returns (or_refuse (trace_id_from_hex (take 32 g.trace_id))) _ h3 λ t p4 h4.
        >>=-returns (or_refuse (span_id_from_hex g.span_id)) _ (refuse_if-some _ _ h4).1 λ s p5 h5.
          >>=-returns (first_byte g.trace_flags) _ (refuse_if-some _ _ h5).1 λ opts f h6.
            let (ti, tv, t_read) = (trace_id_from_hex_iff _ t).0 (or_refuse-some _ p4) in
            let (si, sv, s_read) = (span_id_from_hex_iff _ s).0 (or_refuse-some _ p5) in
            last_tests g tracestate version opts t s h6 v (ground arith) f ti t_read si s_read

-- The two outcomes of `extract`.
pub data Outcome (h tracestate : Bytes) : SpanContext → Type 0 where
  refused : Outcome h tracestate zero_span_context
  accepted :
      {sc : SpanContext} (g : Groups) → Header h g → Reads g tracestate sc → Outcome h tracestate sc

or_zero-Outcome :
    (h tracestate : Bytes) (o : Option SpanContext)
    → (do matches ← match_traceparent h; extract_groups matches tracestate) ≡ o
    → Outcome h tracestate (or_zero o)
unfolding or_zero
or_zero-Outcome h tracestate none e = refused
or_zero-Outcome h tracestate (some sc) e = >>=-returns (match_traceparent h) _ e λ g matched e'.
    accepted g (match_traceparent-eq-some h g matched) (extract_groups-Reads g tracestate sc e')

-- `extract` returns the zero span context, or one that it reads from a header that is four groups of
-- 2, 32, 16 and 2 lower case hex digits with a dash between two, and behind them nothing, or a dash
-- and any bytes but a newline, in version 00 too. Then the version is not ff, the flags are at most
-- 02 in version 00, the identifiers are those of the groups and valid, the span context is remote
-- and has the sampled bit and no other flag, and an unreadable trace state is empty.
pub extract_headers-Outcome :
    (h tracestate : Bytes) → Outcome h tracestate (extract_headers h tracestate)
unfolding extract_headers
extract_headers-Outcome h tracestate = elim (Bool-cases (eq_bytes h [])) [
  | inl missing ↦ rw missing refused
  | inr given ↦ rw given (or_zero-Outcome h tracestate _ refl)
]
