-- ===== src/Trace/Id/Parse.antt =====
-- `TraceIDFromHex` and `SpanIDFromHex` invert `String`, and accept nothing else.
use opentelemetry_go.Prelude.{
  ℕ, ◌*◌, ◌≡◌, ◌≢◌, ◌↔◌, inl, inr, refl, sym, ap, ◌∷◌, true, false, not, [], arith, ◌==◌, ◌∙◌,
  if◌then◌else◌, Bool-cases, Bytes, eq_bytes_iff, length, take, drop, replicate, length-replicate,
  all, append-nil,
}
use mathlib.Core.Path.{subst}
use opentelemetry_go.Hex
use opentelemetry_go.Hex.{is_lower_hex}
use opentelemetry_go.Hex.RoundTrip.{
  decode_string-lower, decode_string-encode, encode-is_lower_hex, length-encode,
}
use opentelemetry_go.Text.{copy}
use opentelemetry_go.Trace.Errors.{
  TraceError, err_invalid_hex_id, err_invalid_trace_id_length, err_nil_trace_id, Result, ok, err,
}
use opentelemetry_go.Trace.Id.{
  nil_trace_id, nil_span_id, IsId, trace_id_is_valid, span_id_is_valid, id_string, decode_hex,
  trace_id_from_hex, span_id_from_hex,
}

take-all : (xs : Bytes) → take (length xs) xs ≡ xs
take-all [] = refl
take-all (x ∷ xs) = ap (◌∷◌ x) (take-all xs)

drop-all : (xs : Bytes) → drop (length xs) xs ≡ []
drop-all [] = refl
drop-all (x ∷ xs) = drop-all xs

-- A copy over a destination of the same length.
copy-same : (dst src : Bytes) → length src ≡ length dst → copy dst src ≡ src
unfolding copy
copy-same dst src e = rw (← e) (rw take-all (rw (e, drop-all, append-nil)))

-- Where every character is lower case hex and the length fits, the bytes are decoded.
decode_hex-lower :
    (h b : Bytes)
    → all is_lower_hex h ≡ true
    → length h ≡ 2 * length b
    → (t : Bytes) × (decode_hex h b ≡ ok t) × IsId (length b) t × (id_string t ≡ h)
unfolding decode_hex
decode_hex-lower h b p e =
    let d = decode_string-lower h (length b) p e in
    (
      d.bytes,
      rw (p, d.decoded) (ap ok (copy-same b d.bytes d.long)),
      record { long = d.long; bytes = d.in_range },
      d.encoded,
    )

decode_hex-id_string :
    (n : ℕ) (t : Bytes) → IsId n t → decode_hex (id_string t) (replicate n 0) ≡ ok t
unfolding decode_hex
decode_hex-id_string n t i =
    rw (encode-is_lower_hex t i.bytes, decode_string-encode t i.bytes)
      (ap ok (copy-same (replicate n 0) t (omega (arith, i.long, length-replicate {A = ℕ} n 0))))

decode_hex-refused :
    (h b : Bytes) → all is_lower_hex h ≡ false → decode_hex h b ≡ err err_invalid_hex_id
unfolding decode_hex
decode_hex-refused h b p = rw p

ok-injective : {t u : Bytes} → ok t ≡ ok u → t ≡ u
ok-injective h = cc

-- On a string of the right length, decoding finds the identifier that prints as the string.
module _ (n : ℕ) (h t : Bytes) where
  decode_hex_sound :
      length h ≡ 2 * n → decode_hex h (replicate n 0) ≡ ok t → IsId n t × (id_string t ≡ h)
  decode_hex_sound l e = elim (Bool-cases (all is_lower_hex h)) [
    | inr bad ↦ absurd (cc (decode_hex-refused h (replicate n 0) bad))
    | inl good ↦
        let z = length-replicate {A = ℕ} n 0 in
        let (u, found, i, p) = decode_hex-lower h (replicate n 0) good (omega (arith, z)) in
        let same : u ≡ t = ok-injective (sym found ∙ e) in
        (subst (λ v. IsId n v) same (rw z at i), rw same at p)
  ]

  decode_hex_complete : IsId n t → id_string t ≡ h → decode_hex h (replicate n 0) ≡ ok t
  decode_hex_complete i p = rw (← p) (decode_hex-id_string n t i)

  length-id_string : IsId n t → id_string t ≡ h → length h ≡ 2 * n
  length-id_string i p = rw (← p) (length-encode t ∙ ap (λ k. 2 * k) i.long)

-- `TraceIDFromHex` accepts exactly the strings that a valid trace identifier prints as, and
-- returns that identifier.
pub trace_id_from_hex_iff :
    (h t : Bytes)
    → (trace_id_from_hex h ≡ ok t) ↔ (IsId 16 t × (trace_id_is_valid t ≡ true) × (id_string t ≡ h))
unfolding trace_id_from_hex
trace_id_from_hex_iff h t = (forward, backward)
  where
    forward :
        trace_id_from_hex h ≡ ok t → IsId 16 t × (trace_id_is_valid t ≡ true) × (id_string t ≡ h)
    forward e =
        let l : length h ≡ 32 = ground arith in
        let d : decode_hex h nil_trace_id ≡ ok t = ground arith in
        let (i, p) = decode_hex_sound 16 h t l d in (i, ground arith, p)

    backward :
        IsId 16 t × (trace_id_is_valid t ≡ true) × (id_string t ≡ h) → trace_id_from_hex h ≡ ok t
    backward (i, v, p) = ground (arith, length-id_string 16 h t i p, decode_hex_complete 16 h t i p)

-- `SpanIDFromHex` accepts exactly the strings that a valid span identifier prints as, and
-- returns that identifier.
pub span_id_from_hex_iff :
    (h s : Bytes)
    → (span_id_from_hex h ≡ ok s) ↔ (IsId 8 s × (span_id_is_valid s ≡ true) × (id_string s ≡ h))
unfolding span_id_from_hex
span_id_from_hex_iff h s = (forward, backward)
  where
    forward : span_id_from_hex h ≡ ok s → IsId 8 s × (span_id_is_valid s ≡ true) × (id_string s ≡ h)
    forward e =
        let l : length h ≡ 16 = ground arith in
        let d : decode_hex h nil_span_id ≡ ok s = ground arith in
        let (i, p) = decode_hex_sound 8 h s l d in (i, ground arith, p)

    backward :
        IsId 8 s × (span_id_is_valid s ≡ true) × (id_string s ≡ h) → span_id_from_hex h ≡ ok s
    backward (i, v, p) = ground (arith, length-id_string 8 h s i p, decode_hex_complete 8 h s i p)

-- Why `TraceIDFromHex` refused a string.
pub data RefusedTraceId (h : Bytes) : TraceError → Type 0 where
  length_is : length h ≢ 32 → RefusedTraceId h err_invalid_trace_id_length
  character : length h ≡ 32 → all is_lower_hex h ≡ false → RefusedTraceId h err_invalid_hex_id
  zeros : h ≡ replicate 32 b'0' → RefusedTraceId h err_nil_trace_id

refused_nil :
    (t : Bytes) (e : TraceError)
    → if◌then◌else◌ {A = Result Bytes} (not (trace_id_is_valid t)) (err err_nil_trace_id) (ok t)
      ≡ err e
    → (e ≡ err_nil_trace_id) × (t ≡ nil_trace_id)
unfolding trace_id_is_valid
refused_nil t e r = (ground arith, ground (arith, eq_bytes_iff t nil_trace_id))

-- An error of `TraceIDFromHex` tells what is wrong with the string: its length is not 32, else a
-- character is no lower case hex digit, else it is 32 zeros. There is no other error.
pub trace_id_from_hex_refused :
    (h : Bytes) (e : TraceError) → trace_id_from_hex h ≡ err e → RefusedTraceId h e
unfolding trace_id_from_hex Hex.encode
trace_id_from_hex_refused h e r = elim (Bool-cases (length h == 32)) [
  | inr l ↦
      let same : err_invalid_trace_id_length ≡ e = ground arith in
      subst (RefusedTraceId h) same (length_is (ground arith))
  | inl l ↦ elim (Bool-cases (all is_lower_hex h)) [
    | inr bad ↦
        let refused = decode_hex-refused h nil_trace_id bad in
        let same : err_invalid_hex_id ≡ e = ground arith in
        subst (RefusedTraceId h) same (character (ground arith) bad)
    | inl good ↦
        let (t, found, i, p) = decode_hex-lower h nil_trace_id good (ground arith) in
        let (same, nil) = refused_nil t e (rw (l, found) at r) in
        subst (RefusedTraceId h) (sym same) (zeros (sym p ∙ ap id_string nil))
  ]
]
