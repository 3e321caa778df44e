-- ===== src/Trace/Errors.antt =====
-- The error constants of trace/trace.go and trace/tracestate.go. An error that `fmt.Errorf` wraps
-- is the constant that it wraps. Where the source returns an error, the other result is the zero
-- value of its type, but for `TraceState.Insert`.

use opentelemetry_go.Prelude.{◌≡◌, refl}

pub data TraceError : Type 0 where
  err_invalid_hex_id : TraceError
  err_invalid_trace_id_length err_nil_trace_id : TraceError
  err_invalid_span_id_length err_nil_span_id : TraceError
  err_invalid_key err_invalid_value err_invalid_member : TraceError
  err_member_number err_duplicate : TraceError
  -- an error of `hex.DecodeString`
  err_hex : TraceError

-- `(T, error)`: the value, or the error in its place.
pub data Result {κ} (T : Type κ) : Type κ where
  err : TraceError → Result T
  ok : T → Result T

-- `if err != nil { return …, err }` and what follows it
infixl 4 ◌>>=◌
abbrev pub ◌>>=◌ {κ μ} : {T : Type κ} {U : Type μ} → Result T → (T → Result U) → Result U
err why >>= next = err why
ok t >>= next = next t

-- The value that the source returns beside its error.
abbrev pub value_or {ℓ} : {A : Type ℓ} → A → Result A → A
value_or zero_value (ok a) = a
value_or zero_value (err e) = zero_value

-- A sequence of two calls succeeds where both do.
pub >>=-eq-ok {κ μ} :
    {T : Type κ} {U : Type μ} (first : Result T) (next : T → Result U) {u : U}
    → (first >>= next) ≡ ok u
    → (t : T) × (first ≡ ok t) × (next t ≡ ok u)
>>=-eq-ok (err why) next h = cc
>>=-eq-ok (ok t) next h = (t, refl, h)
