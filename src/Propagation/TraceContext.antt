-- ===== src/Propagation/TraceContext.antt =====
-- propagation/trace_context.go: the headers `traceparent` and `tracestate`.
pub mod Grammar
pub mod RoundTrip
pub mod Accepted
use opentelemetry_go.Prelude.{
  ℕ, ◌+◌, Bool, true, false, not, ◌&&◌, ◌||◌, List, [], ◌∷◌, ◌++◌, Option, none, some, ltb, ◌==◌,
  if◌then◌else◌, Bytes, codes, eq_bytes, length, take, drop, all,
}
use opentelemetry_go.Hex
use opentelemetry_go.Hex.{is_lower_hex}
use opentelemetry_go.Trace.Errors.{Result, ok, err, value_or}
use opentelemetry_go.Trace.Id.{
  id_string, trace_id_from_hex, span_id_from_hex, sampled_bit, flags_string,
}
use opentelemetry_go.Trace.State.{empty, parse_trace_state, to_string}
use opentelemetry_go.Trace.SpanContext.{SpanContext, zero_span_context, new_span_context, is_valid}
use opentelemetry_go.Trace.Context.{
  Context, span_context_from_context, context_with_remote_span_context,
}
use opentelemetry_go.Propagation.Carrier.{TextMapCarrier}

abbrev pub supported_version : ℕ
supported_version = 0

abbrev pub max_version : ℕ
max_version = 254

abbrev pub traceparent_header : Bytes
traceparent_header = codes "traceparent"

abbrev pub tracestate_header : Bytes
tracestate_header = codes "tracestate"

-- The text that `fmt.Sprintf` makes in `Inject`; `%.2x` of the version is its byte in hex.
unfoldable pub traceparent : SpanContext → Bytes
traceparent sc =
    Hex.encode (supported_version ∷ [])
    ++ (b'-'
        ∷ (id_string sc.trace_id
            ++ (b'-'
                ∷ (id_string sc.span_id ++ (b'-' ∷ flags_string (sampled_bit sc.trace_flags))))))

-- The groups that `traceCtxRegExp` captures.
pub record Groups : Type 0 where
  pub version : Bytes
  pub trace_id : Bytes
  pub span_id : Bytes
  pub trace_flags : Bytes

-- `len(matches)` of a match: the whole and the four groups. `(?:-.*)?` captures nothing.
abbrev pub match_count : ℕ
match_count = 5

infixl 5 ◌>>=◌
abbrev pub ◌>>=◌ {ℓ κ} : {A : Type ℓ} {B : Type κ} → Option A → (A → Option B) → Option B
none >>= f = none
some a >>= f = f a

-- `[0-9a-f]{n}`: the field and what follows it
unfoldable pub hex_field : ℕ → Bytes → Option (Bytes × Bytes)
hex_field n s =
    let field = take n s in
    if length field == n && all is_lower_hex field then some (field, drop n s) else none

-- `-`
unfoldable pub dash : Bytes → Option Bytes
dash [] = none
dash (c ∷ cs) = if c == b'-' then some cs else none

-- `[0-9a-f]{n}-`
unfoldable pub hex_field_dash : ℕ → Bytes → Option (Bytes × Bytes)
hex_field_dash n s = do (field, rest) ← hex_field n s; behind ← dash rest; some (field, behind)

-- `(?:-.*)?$`; a dot is any character but a newline
unfoldable pub is_tail : Bytes → Bool
is_tail [] = true
is_tail (c ∷ cs) = c == b'-' && all (λ d. not (d == b'\n')) cs

-- `traceCtxRegExp.FindStringSubmatch`
unfoldable pub match_traceparent : Bytes → Option Groups
match_traceparent h = do
  (version, a) ← hex_field_dash 2 h
  (trace_id, b) ← hex_field_dash 32 a
  (span_id, c) ← hex_field_dash 16 b
  (trace_flags, tail) ← hex_field 2 c
  let groups : Groups = record {
    version = version;
    trace_id = trace_id;
    span_id = span_id;
    trace_flags = trace_flags;
  }
  if is_tail tail then some groups else none

-- The test of a condition that returns `trace.SpanContext{}`.
abbrev pub refuse_if {ℓ} : {A : Type ℓ} → Bool → Option A → Option A
refuse_if true rest = none
refuse_if false rest = rest

-- `err != nil` returns `trace.SpanContext{}`
abbrev pub or_refuse {ℓ} : {A : Type ℓ} → Result A → Option A
or_refuse (ok a) = some a
or_refuse (err e) = none

-- `hex.DecodeString` and the first byte
unfoldable pub first_byte : Bytes → Option ℕ
first_byte s = do decoded ← Hex.decode_string s; elim decoded [ [] ↦ none | b ∷ bs ↦ some b ]

-- What `extract` makes of the groups and of the header `tracestate`; `none` where it returns
-- `trace.SpanContext{}`.
unfoldable pub extract_groups : Groups → Bytes → Option SpanContext
unfolding first_byte
extract_groups matches tracestate = refuse_if (not (length matches.version == 2)) do
  version ← first_byte matches.version
  refuse_if (ltb max_version version) (
      refuse_if (version == 0 && not (match_count == 5)) (
        refuse_if (not (length matches.trace_id == 32)) do
          trace_id ← or_refuse (trace_id_from_hex (take 32 matches.trace_id))
          refuse_if (not (length matches.span_id == 16)) do
            span_id ← or_refuse (span_id_from_hex matches.span_id)
            refuse_if (not (length matches.trace_flags == 2)) do
              opts ← first_byte matches.trace_flags
              refuse_if (version == 0 && ltb 2 opts) (
                  let sc = new_span_context (record {
                    trace_id = trace_id;
                    span_id = span_id;
                    trace_flags = sampled_bit opts;
                    trace_state = value_or empty (parse_trace_state tracestate);
                    remote = true;
                  }) in
                  refuse_if (not (is_valid sc)) (some sc))))

-- `return trace.SpanContext{}`, or the span context
or_zero : Option SpanContext → SpanContext
or_zero none = zero_span_context
or_zero (some sc) = sc

-- `extract`, on the values of the two headers
unfoldable pub extract_headers : Bytes → Bytes → SpanContext
unfolding or_zero
extract_headers h tracestate =
    if eq_bytes h []
    then zero_span_context
    else or_zero (do matches ← match_traceparent h; extract_groups matches tracestate)

module _ {C : Type 0} (carriers : TextMapCarrier C) where
  open carriers use {get, set}

  -- `TraceContext.Inject`
  unfoldable pub inject : Context → C → C
  inject ctx carrier =
      let sc = span_context_from_context ctx in
      if not (is_valid sc)
      then carrier
      else let ts = to_string sc.trace_state in
        let stated = if not (eq_bytes ts []) then set carrier tracestate_header ts else carrier in
        set stated traceparent_header (traceparent sc)

  -- `TraceContext.Extract`
  unfoldable pub extract : Context → C → Context
  extract ctx carrier =
      let sc = extract_headers (get carrier traceparent_header) (get carrier tracestate_header) in
      if not (is_valid sc) then ctx else context_with_remote_span_context ctx sc
