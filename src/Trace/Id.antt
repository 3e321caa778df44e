-- ===== src/Trace/Id.antt =====
-- `TraceID`, `SpanID` and `TraceFlags` of trace/trace.go. The arrays `[16]byte` and `[8]byte` are
-- lists of bytes of that length.
pub mod Parse
use opentelemetry_go.Prelude.{
  ℕ, ◌+◌, ◌-◌, ◌%◌, ◌≡◌, Bool, true, false, not, List, [], ◌∷◌, Option, none, some, ◌==◌,
  if◌then◌else◌, Bytes, eq_bytes, length, replicate, all, All, IsByte,
}
use opentelemetry_go.Hex
use opentelemetry_go.Hex.{is_lower_hex}
use opentelemetry_go.Text.{copy}
use opentelemetry_go.Trace.Errors.{
  TraceError, err_invalid_hex_id, err_invalid_trace_id_length, err_nil_trace_id,
  err_invalid_span_id_length, err_nil_span_id, err_hex, Result, ok, err, ◌>>=◌,
}

abbrev pub nil_trace_id : Bytes
nil_trace_id = replicate 16 0

abbrev pub nil_span_id : Bytes
nil_span_id = replicate 8 0

-- What the Go type guarantees of an identifier of `n` bytes.
pub record IsId (n : ℕ) (t : Bytes) : Type 0 where
  pub long : length t ≡ n
  pub bytes : All IsByte t

-- `TraceID.IsValid`
unfoldable pub trace_id_is_valid : Bytes → Bool
trace_id_is_valid t = not (eq_bytes t nil_trace_id)

-- `SpanID.IsValid`
unfoldable pub span_id_is_valid : Bytes → Bool
span_id_is_valid s = not (eq_bytes s nil_span_id)

-- `TraceID.String` and `SpanID.String`
abbrev pub id_string : Bytes → Bytes
id_string = Hex.encode

-- `decodeHex`; the result is the new contents of `b`. A rune outside of ASCII is refused as its
-- bytes are.
unfoldable pub decode_hex : Bytes → Bytes → Result Bytes
decode_hex h b =
    if all is_lower_hex h
    then elim (Hex.decode_string h) [ none ↦ err err_hex | some decoded ↦ ok (copy b decoded) ]
    else err err_invalid_hex_id

-- `TraceIDFromHex`
unfoldable pub trace_id_from_hex : Bytes → Result Bytes
unfolding trace_id_is_valid
trace_id_from_hex h = if not (length h == 32) then err err_invalid_trace_id_length else do
  t ← decode_hex h nil_trace_id
  if not (trace_id_is_valid t) then err err_nil_trace_id else ok t

-- `SpanIDFromHex`
unfoldable pub span_id_from_hex : Bytes → Result Bytes
unfolding span_id_is_valid
span_id_from_hex h = if not (length h == 16) then err err_invalid_span_id_length else do
  s ← decode_hex h nil_span_id
  if not (span_id_is_valid s) then err err_nil_span_id else ok s

-- `FlagsSampled`
abbrev pub flags_sampled : ℕ
flags_sampled = 1

-- `tf & FlagsSampled`: the lowest bit of a byte.
abbrev pub sampled_bit : ℕ → ℕ
sampled_bit tf = tf % 2

-- `TraceFlags.IsSampled`
unfoldable pub is_sampled : ℕ → Bool
is_sampled tf = sampled_bit tf == flags_sampled

-- `TraceFlags.WithSampled`: `tf | FlagsSampled` and `tf &^ FlagsSampled`
unfoldable pub with_sampled : ℕ → Bool → ℕ
with_sampled tf sampled =
    if sampled then tf - sampled_bit tf + flags_sampled else tf - sampled_bit tf

-- `TraceFlags.String`
abbrev pub flags_string : ℕ → Bytes
flags_string tf = Hex.encode (tf ∷ [])
