-- ===== src/Propagation/TraceContext/RoundTrip.antt =====
-- `Extract` behind `Inject`.
use opentelemetry_go.Prelude.{
  ℕ, ◌*◌, ◌<◌, ◌≤◌, ltb, ◌≡◌, ◌≢◌, refl, sym, ap, ◌∙◌, ◌⊎◌, true, false, not, inl, inr, Bool-cases,
  [], ◌∷◌, ◌++◌, some, arith, ◌==◌, if◌then◌else◌, Bytes, eq_bytes, eq_bytes_iff, eq_bytes_refl,
  length, take, append-nil, All, IsByte,
}
use opentelemetry_go.Hex
use opentelemetry_go.Hex.{is_lower_hex}
use opentelemetry_go.Hex.RoundTrip.{length-encode, encode-is_lower_hex, decode_string-encode}
use opentelemetry_go.Trace.Errors.{ok, value_or}
use opentelemetry_go.Trace.Id.{id_string, trace_id_from_hex, span_id_from_hex, sampled_bit}
use opentelemetry_go.Trace.Id.Parse.{trace_id_from_hex_iff, span_id_from_hex_iff}
use opentelemetry_go.Trace.State.{TraceState, empty, parse_trace_state, to_string}
use opentelemetry_go.Trace.State.WellFormed.{IsWellFormed}
use opentelemetry_go.Trace.State.RoundTrip.{parse_trace_state-to_string}
use opentelemetry_go.Trace.SpanContext.{SpanContext, is_valid, IsSpanContext}
use opentelemetry_go.Trace.Context.{Context, span_context_from_context}
use opentelemetry_go.Propagation.Carrier.{TextMapCarrier}
use opentelemetry_go.Propagation.TraceContext.{
  Groups, ◌>>=◌, traceparent, first_byte, extract_groups, extract_headers, inject, extract,
  traceparent_header, tracestate_header,
}
use opentelemetry_go.Propagation.TraceContext.Grammar.{
  IsHexField, IsGroups, IsTail, header, match_traceparent-header,
}

encode-IsHexField :
    (n : ℕ) (bs : Bytes) → length bs ≡ n → All IsByte bs → IsHexField (2 * n) (Hex.encode bs)
encode-IsHexField n bs l b = record {
  long = length-encode bs ∙ ap (λ k. 2 * k) l;
  lower = encode-is_lower_hex bs b;
}

-- The groups of a header of this version, with the identifiers of the span context and these flags.
abbrev pub written : ℕ → ℕ → SpanContext → Groups
written version flags sc = record {
  version = Hex.encode (version ∷ []);
  trace_id = id_string sc.trace_id;
  span_id = id_string sc.span_id;
  trace_flags = Hex.encode (flags ∷ []);
}

-- The groups of the header that `Inject` writes.
abbrev pub injected : SpanContext → Groups
injected sc = written 0 (sampled_bit sc.trace_flags) sc

traceparent-header : (sc : SpanContext) → traceparent sc ≡ header (injected sc) []
unfolding traceparent
traceparent-header sc = rw append-nil

-- What arrives: the flags but for the sampled bit are cleared, and the context is remote.
abbrev pub arrived : SpanContext → SpanContext
arrived sc = record sc { trace_flags = sampled_bit sc.trace_flags; remote = true }

take-long : (n : ℕ) (xs : Bytes) → length xs ≡ n → take n xs ≡ xs
take-long n [] l = rw (sym l)
take-long n (x ∷ xs) l = rw (sym l) (ap (◌∷◌ x) (take-long (length xs) xs refl))

long-test : (s : Bytes) (n : ℕ) → length s ≡ n → not (length s == n) ≡ false
long-test s n l = ground arith

first_byte-encode : (b : ℕ) → b < 256 → first_byte (Hex.encode (b ∷ [])) ≡ some b
unfolding first_byte
first_byte-encode b h = rw (decode_string-encode (b ∷ []) (h, tt))

not_empty : (v r : Bytes) → length v ≡ 2 → eq_bytes (v ++ r) [] ≡ false
unfolding eq_bytes
not_empty [] r l = absurd (omega arith)
not_empty (c ∷ v) r l = refl

module _ (sc : SpanContext) (typed : IsSpanContext sc) (valid : is_valid sc ≡ true) where
  written-IsGroups :
      (version flags : ℕ) → version < 255 → flags < 256 → IsGroups (written version flags sc)
  written-IsGroups version flags v f = record {
    version_ok = encode-IsHexField 1 (version ∷ []) refl (omega (arith, v), tt);
    trace_id_ok = encode-IsHexField 16 sc.trace_id typed.trace_id_ok.long typed.trace_id_ok.bytes;
    span_id_ok = encode-IsHexField 8 sc.span_id typed.span_id_ok.long typed.span_id_ok.bytes;
    trace_flags_ok = encode-IsHexField 1 (flags ∷ []) refl (f, tt);
  }

  -- What is read of the groups.
  abbrev read : ℕ → Bytes → SpanContext
  read flags tracestate = record sc {
    trace_flags = sampled_bit flags;
    trace_state = value_or empty (parse_trace_state tracestate);
    remote = true;
  }

  -- The groups give back the identifiers and the sampled bit, whatever the trace state.
  extract_groups-written :
      (version flags : ℕ) (tracestate : Bytes)
      → version < 255
      → flags < 256
      → (version ≡ 0 → flags ≤ 2)
      → extract_groups (written version flags sc) tracestate ≡ some (read flags tracestate)
  unfolding extract_groups is_valid
  extract_groups-written version flags tracestate v f small =
      let i = written-IsGroups version flags v f in
      let t : trace_id_from_hex (id_string sc.trace_id) ≡ ok sc.trace_id =
        (trace_id_from_hex_iff _ sc.trace_id).1 (typed.trace_id_ok, ground arith, refl) in
      let s : span_id_from_hex (id_string sc.span_id) ≡ ok sc.span_id =
        (span_id_from_hex_iff _ sc.span_id).1 (typed.span_id_ok, ground arith, refl) in
      let known : ltb 254 version ≡ false = ground (arith, v) in
      rw (long-test _ 2 i.version_ok.long, first_byte-encode version (omega (arith, v)))
        (rw (long-test _ 32 i.trace_id_ok.long, take-long 32 _ i.trace_id_ok.long, t, known)
          (rw (long-test _ 16 i.span_id_ok.long, s, long-test _ 2 i.trace_flags_ok.long)
            (rw (first_byte-encode flags f) (ground (arith, small)))))

  -- A header is accepted that has two lower case hex digits of a version other than ff, the
  -- identifiers of a valid span context, and two digits of flags, with a dash between two, and behind
  -- them nothing, or a dash and any bytes but a newline; in version 00 with flags up to 02, and with
  -- such a tail too. What is read has the identifiers, of the flags the sampled bit, the trace state of
  -- the other header, empty where that is unreadable, and is marked as remote.
  pub extract_headers-tail :
      (version flags : ℕ) (tail tracestate : Bytes)
      → version < 255
      → flags < 256
      → (version ≡ 0 → flags ≤ 2)
      → IsTail tail
      → extract_headers (header (written version flags sc) tail) tracestate ≡ record sc {
        trace_flags = sampled_bit flags;
        trace_state = value_or empty (parse_trace_state tracestate);
        remote = true;
      }
  unfolding extract_headers
  extract_headers-tail version flags tail tracestate v f small t =
      let i = written-IsGroups version flags v f in
      let m = match_traceparent-header (written version flags sc) tail i t in
      rw (not_empty _ _ i.version_ok.long)
        (rw (m, extract_groups-written version flags tracestate v f small, ◌>>=◌))

  extract_headers-traceparent :
      (tracestate : Bytes)
      → extract_headers (traceparent sc) tracestate
        ≡ record (arrived sc) { trace_state = value_or empty (parse_trace_state tracestate) }
  extract_headers-traceparent tracestate =
      let once : sampled_bit (sampled_bit sc.trace_flags) ≡ sampled_bit sc.trace_flags =
        omega arith in
      rw (traceparent-header sc) (
        extract_headers-tail 0 (sampled_bit sc.trace_flags) [] tracestate (omega arith)
          (omega arith) (λ z. omega arith) IsTail.nothing
        ∙ rw once)

-- Of a list of no bytes the trace state is empty.
parse-nothing : parse_trace_state [] ≡ ok empty
unfolding parse_trace_state eq_bytes
parse-nothing = refl

is_empty : (ts : TraceState) → IsWellFormed ts → eq_bytes (to_string ts) [] ≡ true → empty ≡ ts
is_empty ts w e = same (
    sym parse-nothing
    ∙ ap parse_trace_state (sym ((eq_bytes_iff _ _).0 e))
    ∙ parse_trace_state-to_string ts w)
  where
    same : ok empty ≡ ok ts → empty ≡ ts
    same h = cc

module _ {C : Type 0} (carriers : TextMapCarrier C) where
  open carriers use {get, set, get_set}

  -- The header that `Extract` reads the trace state from, behind `Inject`.
  module _ (c : C) (ts : TraceState) (h : Bytes) where
    abbrev stated : C
    stated = if not (eq_bytes (to_string ts) []) then set c tracestate_header (to_string ts) else c

    get-traceparent : get (set stated traceparent_header h) traceparent_header ≡ h
    get-traceparent = rw get_set (rw eq_bytes_refl)

    get-tracestate :
        get (set stated traceparent_header h) tracestate_header ≡ get stated tracestate_header
    get-tracestate = rw get_set (unfold eq_bytes in refl)

    state_arrives :
        IsWellFormed ts
        → (get c tracestate_header ≡ []) ⊎ (ts ≢ empty)
        → value_or empty
            (parse_trace_state (get (set stated traceparent_header h) tracestate_header))
          ≡ ts
    state_arrives w clean = elim (Bool-cases (eq_bytes (to_string ts) [])) [
      | inr some_text ↦
          rw get-tracestate
            (rw some_text (rw get_set (rw eq_bytes_refl (rw (parse_trace_state-to_string ts w)))))
      | inl no_text ↦
          let e = is_empty ts w no_text in rw get-tracestate (rw no_text (nothing_arrives e clean))
    ]
      where
        nothing_arrives :
            empty ≡ ts
            → (get c tracestate_header ≡ []) ⊎ (ts ≢ empty)
            → value_or empty (parse_trace_state (get c tracestate_header)) ≡ ts
        nothing_arrives e (inl clean) = rw clean (rw parse-nothing e)
        nothing_arrives e (inr other) = absurd (other (sym e))

  -- What `Inject` writes, `Extract` reads: the span context of the first context becomes the current
  -- span of the second, with the trace identifiers and the trace state unchanged, the flags cleared
  -- but for the sampled bit, and marked as remote. The carrier held no trace state before, or there
  -- is one to write.
  pub extract-inject :
      (ctx ctx' : Context) (c : C)
      → IsSpanContext (span_context_from_context ctx)
      → is_valid (span_context_from_context ctx) ≡ true
      → (get c tracestate_header ≡ []) ⊎ ((span_context_from_context ctx).trace_state ≢ empty)
      → extract carriers ctx' (inject carriers ctx c)
        ≡ record ctx' { current_span = some (arrived (span_context_from_context ctx)) }
  unfolding extract inject
  extract-inject ctx ctx' c typed valid clean =
      let sc = span_context_from_context ctx in
      let arrives = extract_headers-traceparent sc typed valid (
        get (set (stated c sc.trace_state (traceparent sc)) traceparent_header (traceparent sc))
          tracestate_header) in
      let valid' : is_valid (arrived sc) ≡ true = unfold is_valid in valid in
      let state = state_arrives c sc.trace_state (traceparent sc) typed.state_ok clean in
      rw valid
        (rw (get-traceparent c sc.trace_state (traceparent sc)) (rw (arrives, state) (rw valid')))
