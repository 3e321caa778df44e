-- ===== src/Text/Escape.antt =====
-- `url.QueryEscape` and `url.QueryUnescape`, which baggage/baggage.go calls, and that the second undoes
-- the first.
use opentelemetry_go.Prelude.{
  ℕ, ◌+◌, ◌-◌, ◌*◌, ◌/◌, ◌%◌, ◌<◌, ◌≡◌, refl, ap, ◌∙◌, Bool, true, false, ◌&&◌, ◌||◌, inl, inr,
  Bool-cases, [], ◌∷◌, Option, none, some, arith, ltb, leb, ◌==◌, if◌then◌else◌, Bytes, all, All,
  IsByte,
}
use opentelemetry_go.Hex.{from_hex_char}

-- Not escaped: letters, digits and `-_.~`
unfoldable pub is_unreserved : ℕ → Bool
is_unreserved c =
    leb b'a' c && leb c b'z'
    || leb b'A' c && leb c b'Z'
    || leb b'0' c && leb c b'9'
    || c == b'-'
    || c == b'_'
    || c == b'.'
    || c == b'~'

-- `upperhex[n]`, for n < 16
unfoldable pub upper_hex : ℕ → ℕ
upper_hex n = if ltb n 10 then b'0' + n else b'A' + (n - 10)

-- `url.QueryEscape`
unfoldable pub query_escape : Bytes → Bytes
query_escape [] = []
query_escape (c ∷ cs) =
    let rest = query_escape cs in
    if c == b' '
    then b'+' ∷ rest
    else if is_unreserved c
    then c ∷ rest
    else b'%' ∷ upper_hex (c / 16) ∷ upper_hex (c % 16) ∷ rest

-- Where the reader stands: outside of an escape, behind its `%`, or behind its first digit.
pub data Escape : Type 0 where
  outside : Escape
  percent : Escape
  digit : ℕ → Escape

push : ℕ → Option Bytes → Option Bytes
push c none = none
push c (some s) = some (c ∷ s)

abbrev digit_after : Option ℕ → Escape
digit_after none = outside
digit_after (some h) = digit h

push_digit : ℕ → Option ℕ → Option Bytes → Option Bytes
push_digit h none rest = none
push_digit h (some l) rest = push (h * 16 + l) rest

unfoldable pub unescape_from : Escape → Bytes → Option Bytes
unfolding push push_digit
unescape_from outside [] = some []
unescape_from _ [] = none
unescape_from outside (c ∷ cs) =
    let rest = unescape_from (if c == b'%' then percent else outside) cs in
    if c == b'%' then rest else push (if c == b'+' then b' ' else c) rest
unescape_from percent (c ∷ cs) =
    let rest = unescape_from (digit_after (from_hex_char c)) cs in
    elim (from_hex_char c) [ none ↦ none | some h ↦ rest ]
unescape_from (digit h) (c ∷ cs) = push_digit h (from_hex_char c) (unescape_from outside cs)

-- `url.QueryUnescape`; `none` where a `%` has no two hex digits behind it
abbrev pub query_unescape : Bytes → Option Bytes
query_unescape s = unescape_from outside s

from_hex_char-upper_hex : (n : ℕ) → n < 16 → from_hex_char (upper_hex n) ≡ some n
unfolding from_hex_char upper_hex
from_hex_char-upper_hex n h = ground arith

unescape_from-plain :
    (c : ℕ) (cs : Bytes)
    → (c == b'%') ≡ false
    → (c == b'+') ≡ false
    → unescape_from outside (c ∷ cs) ≡ push c (unescape_from outside cs)
unfolding unescape_from
unescape_from-plain c cs h h' = rw (h, h') refl

unescape_from-escaped :
    (h l : ℕ) (cs : Bytes)
    → h < 16
    → l < 16
    → unescape_from outside (b'%' ∷ upper_hex h ∷ upper_hex l ∷ cs)
      ≡ push (h * 16 + l) (unescape_from outside cs)
unfolding unescape_from push_digit
unescape_from-escaped h l cs p q =
    ap
      (λ o.
        let rest = unescape_from (digit_after o) (upper_hex l ∷ cs) in
        elim o [ none ↦ none | some d ↦ rest ])
      (from_hex_char-upper_hex h p)
    ∙ ap (λ o. push_digit h o (unescape_from outside cs)) (from_hex_char-upper_hex l q)

is_unreserved-plain :
    (c : ℕ) → is_unreserved c ≡ true → ((c == b'%') ≡ false) × ((c == b'+') ≡ false)
unfolding is_unreserved
is_unreserved-plain c h = (ground arith, ground arith)

pub query_unescape-query_escape :
    (s : Bytes) → All IsByte s → query_unescape (query_escape s) ≡ some s
unfolding query_escape unescape_from push
query_unescape-query_escape [] h = refl
query_unescape-query_escape (c ∷ cs) (b, h) =
    let ih = query_unescape-query_escape cs h in
    elim (Bool-cases (c == b' ')) [
      | inl space ↦ rw space (ap (push b' ') ih ∙ ap (λ d. some (d ∷ cs)) (ground (arith, space)))
      | inr other ↦ elim (Bool-cases (is_unreserved c)) [
        | inl kept ↦
            let (p, q) = is_unreserved-plain c kept in
            rw (other, kept) (unescape_from-plain c (query_escape cs) p q ∙ ap (push c) ih)
        | inr escaped ↦
            rw (other, escaped)
              (unescape_from-escaped (c / 16) (c % 16) (query_escape cs) (omega arith) (omega arith)
                ∙ ap (push (c / 16 * 16 + c % 16)) ih
                ∙ ap (λ d. some (d ∷ cs)) (omega arith))
      ]
    ]

-- The characters of an escaped string.
unfoldable pub is_escaped : ℕ → Bool
is_escaped c = is_unreserved c || c == b'+' || c == b'%'

upper_hex-is_escaped : (n : ℕ) → n < 16 → is_escaped (upper_hex n) ≡ true
unfolding is_escaped is_unreserved upper_hex
upper_hex-is_escaped n h = ground arith

pub query_escape-is_escaped : (s : Bytes) → All IsByte s → all is_escaped (query_escape s) ≡ true
unfolding query_escape is_escaped is_unreserved
query_escape-is_escaped [] h = refl
query_escape-is_escaped (c ∷ cs) (b, h) =
    let ih = query_escape-is_escaped cs h in
    elim (Bool-cases (c == b' ')) [
      | inl space ↦ rw space ih
      | inr other ↦ elim (Bool-cases (is_unreserved c)) [
        | inl kept ↦ rw (other, kept, kept) ih
        | inr escaped ↦
            rw (other, escaped)
              (both (upper_hex (c / 16)) (upper_hex (c % 16)) (query_escape cs)
                (upper_hex-is_escaped (c / 16) (omega arith))
                (upper_hex-is_escaped (c % 16) (omega arith)) ih)
      ]
    ]
  where
    both :
        (x y : ℕ) (s : Bytes)
        → is_escaped x ≡ true
        → is_escaped y ≡ true
        → all is_escaped s ≡ true
        → all is_escaped (b'%' ∷ x ∷ y ∷ s) ≡ true
    both x y s p q r = rw (p, q) r
