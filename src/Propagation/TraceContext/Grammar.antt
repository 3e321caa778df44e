-- ===== src/Propagation/TraceContext/Grammar.antt =====
-- What `traceCtxRegExp` matches: the four fields in hex, and a tail.
use opentelemetry_go.Prelude.{
  ℕ, ◌≡◌, ◌≢◌, refl, sym, ap, true, not, ◌==◌, All, [], ◌∷◌, ◌++◌, Option, none, some, arith,
  if◌then◌else◌, Bytes, length, take, drop, take-append-drop, all,
}
use mathlib.Core.Path.{subst}
use opentelemetry_go.Hex.{is_lower_hex}
use opentelemetry_go.Propagation.TraceContext.{
  Groups, ◌>>=◌, hex_field, hex_field_dash, dash, is_tail, match_traceparent,
}

-- A string of `n` lower case hex digits.
pub record IsHexField (n : ℕ) (s : Bytes) : Type 0 where
  pub long : length s ≡ n
  pub lower : all is_lower_hex s ≡ true

take-length : (s r : Bytes) → take (length s) (s ++ r) ≡ s
take-length [] r = refl
take-length (c ∷ s) r = ap (◌∷◌ c) (take-length s r)

drop-length : (s r : Bytes) → drop (length s) (s ++ r) ≡ r
drop-length [] r = refl
drop-length (c ∷ s) r = drop-length s r

pub hex_field-append : (n : ℕ) (s r : Bytes) → IsHexField n s → hex_field n (s ++ r) ≡ some (s, r)
unfolding hex_field
hex_field-append n s r i =
    rw (sym i.long) (rw (take-length s r, drop-length s r) (ground (arith, i.lower)))

-- A bind that returns has had a value to go on with.
pub >>=-returns {ℓ κ μ} :
    {A : Type ℓ} {B : Type κ} {R : Type μ} (m : Option A) (f : A → Option B) {b : B}
    → (m >>= f) ≡ some b
    → ((a : A) → m ≡ some a → f a ≡ some b → R)
    → R
>>=-returns none f h k = absurd (cc h)
>>=-returns (some a) f h k = k a refl h

hex_field-eq-some :
    (n : ℕ) (s : Bytes) {a b : Bytes} → hex_field n s ≡ some (a, b) → IsHexField n a × (s ≡ a ++ b)
unfolding hex_field
hex_field-eq-some n s h =
    (record { long = ground arith; lower = ground arith }, ground (arith, take-append-drop n s))

dash-eq-some : (s : Bytes) {r : Bytes} → dash s ≡ some r → s ≡ b'-' ∷ r
unfolding dash
dash-eq-some [] h = cc
dash-eq-some (c ∷ cs) h = ground arith

-- A field and its dash are read, and the rest is left.
hex_field_dash-append :
    (n : ℕ) (s r : Bytes) → IsHexField n s → hex_field_dash n (s ++ (b'-' ∷ r)) ≡ some (s, r)
unfolding hex_field_dash dash
hex_field_dash-append n s r i = rw (hex_field-append n s (b'-' ∷ r) i)

hex_field_dash-eq-some :
    (n : ℕ) (s : Bytes) {a b : Bytes}
    → hex_field_dash n s ≡ some (a, b)
    → IsHexField n a × (s ≡ a ++ (b'-' ∷ b))
unfolding hex_field_dash
hex_field_dash-eq-some n s {a} {b} h = >>=-returns (hex_field n s) _ h λ p found h'.
    >>=-returns (dash p.1) _ h' λ r dashed h''.
      let (i, e) = hex_field-eq-some n s found in
      let d = dash-eq-some p.1 dashed in
      let left : p.0 ≡ a = cc in
      let right : r ≡ b = cc in (subst (IsHexField n) left i, cc (e, d, left, right))

-- The header with these groups and this tail.
abbrev pub header : Groups → Bytes → Bytes
header g tail =
    g.version ++ (b'-' ∷ (g.trace_id ++ (b'-' ∷ (g.span_id ++ (b'-' ∷ (g.trace_flags ++ tail))))))

pub record IsGroups (g : Groups) : Type 0 where
  pub version_ok : IsHexField 2 g.version
  pub trace_id_ok : IsHexField 32 g.trace_id
  pub span_id_ok : IsHexField 16 g.span_id
  pub trace_flags_ok : IsHexField 2 g.trace_flags

-- What can stand behind the four groups: nothing, or a dash and anything but a newline.
pub data IsTail : Bytes → Type 0 where
  nothing : IsTail []
  behind_dash : (more : Bytes) → All (λ c. c ≢ b'\n') more → IsTail (b'-' ∷ more)

no_newline : (s : Bytes) → All (λ c. c ≢ b'\n') s → all (λ d. not (d == b'\n')) s ≡ true
no_newline [] h = refl
no_newline (c ∷ s) (h, hs) = ground (arith, no_newline s hs)

newline_free : (s : Bytes) → all (λ d. not (d == b'\n')) s ≡ true → All (λ c. c ≢ b'\n') s
newline_free [] h = tt
newline_free (c ∷ s) h = (ground arith, newline_free s (ground arith))

is_tail-true : {tail : Bytes} → IsTail tail → is_tail tail ≡ true
unfolding is_tail
is_tail-true IsTail.nothing = refl
is_tail-true (IsTail.behind_dash more h) = no_newline more h

is_tail-IsTail : (tail : Bytes) → is_tail tail ≡ true → IsTail tail
unfolding is_tail
is_tail-IsTail [] h = IsTail.nothing
is_tail-IsTail (c ∷ more) h =
    let starts : b'-' ≡ c = ground arith in
    subst (λ x. IsTail (x ∷ more)) starts
      (IsTail.behind_dash more (newline_free more (ground arith)))

-- The expression matches every header of the form, and captures its fields.
pub match_traceparent-header :
    (g : Groups) (tail : Bytes)
    → IsGroups g
    → IsTail tail
    → match_traceparent (header g tail) ≡ some g
unfolding match_traceparent
match_traceparent-header g tail i t = rw (hex_field_dash-append 2 g.version _ i.version_ok) (
    rw (hex_field_dash-append 32 g.trace_id _ i.trace_id_ok) (
      rw (hex_field_dash-append 16 g.span_id _ i.span_id_ok)
        (rw (hex_field-append 2 g.trace_flags tail i.trace_flags_ok) (rw (is_tail-true t)))))

-- The header has the form that the expression describes, with these groups.
pub record Header (h : Bytes) (g : Groups) : Type 0 where
  pub tail : Bytes
  pub groups_ok : IsGroups g
  pub tail_ok : IsTail tail
  pub split : h ≡ header g tail

abbrev groups : Bytes → Bytes → Bytes → Bytes → Groups
groups v t s f = record { version = v; trace_id = t; span_id = s; trace_flags = f }

tail_tested :
    (v t s f tail : Bytes) (g : Groups)
    → if◌then◌else◌ {A = Option Groups} (is_tail tail) (some (groups v t s f)) none ≡ some g
    → (groups v t s f ≡ g) × (is_tail tail ≡ true)
tail_tested v t s f tail g h = (ground arith, ground arith)

-- Only such headers match.
pub match_traceparent-eq-some : (h : Bytes) (g : Groups) → match_traceparent h ≡ some g → Header h g
unfolding match_traceparent
match_traceparent-eq-some h g e = >>=-returns (hex_field_dash 2 h) _ e λ v p1 e1.
    >>=-returns (hex_field_dash 32 v.1) _ e1 λ t p2 e2.
      >>=-returns (hex_field_dash 16 t.1) _ e2 λ s p3 e3.
        >>=-returns (hex_field 2 s.1) _ e3 λ f p4 e4.
          let (i1, q1) = hex_field_dash-eq-some 2 h p1 in
          let (i2, q2) = hex_field_dash-eq-some 32 v.1 p2 in
          let (i3, q3) = hex_field_dash-eq-some 16 t.1 p3 in
          let (i4, q4) = hex_field-eq-some 2 s.1 p4 in
          let (made, ok) = tail_tested v.0 t.0 s.0 f.0 f.1 g e4 in
          subst (Header h) made (record {
            tail = f.1;
            groups_ok = record {
              version_ok = i1;
              trace_id_ok = i2;
              span_id_ok = i3;
              trace_flags_ok = i4;
            };
            tail_ok = is_tail-IsTail f.1 ok;
            split = cc (q1, q2, q3, q4);
          })
