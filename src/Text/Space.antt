-- ===== src/Text/Space.antt =====
-- `strings.TrimSpace`: the characters with Unicode's property White_Space, in UTF-8.
use opentelemetry_go.Prelude.{
  ℕ, zero, suc, ◌≡◌, refl, ap, ◌∙◌, Bool, true, ◌&&◌, ◌||◌, [], ◌∷◌, arith, leb, ◌==◌,
  if◌then◌else◌, Bytes, length, drop, all, all-append,
}
use mathlib.Core.List.{reverse, reverse-cons, reverse-reverse}

-- `unicode.IsSpace` for one byte
unfoldable pub is_ascii_space : ℕ → Bool
is_ascii_space c = c == 0x09 || c == 0x0a || c == 0x0b || c == 0x0c || c == 0x0d || c == 0x20

-- For the encodings of two and of three bytes
is_space2 : ℕ → ℕ → Bool
is_space2 c d = c == 0xc2 && (d == 0x85 || d == 0xa0)

is_space3 : ℕ → ℕ → ℕ → Bool
is_space3 c d e =
    c == 0xe1 && d == 0x9a && e == 0x80
    || c == 0xe2 && d == 0x80 && (leb 0x80 e && leb e 0x8a || e == 0xa8 || e == 0xa9 || e == 0xaf)
    || c == 0xe2 && d == 0x81 && e == 0x9f
    || c == 0xe3 && d == 0x80 && e == 0x80

-- The bytes of the space character at the start, 0 where there is none.
unfoldable pub leading_space : Bytes → ℕ
unfolding is_ascii_space is_space2 is_space3
leading_space [] = 0
leading_space (c ∷ []) = if is_ascii_space c then 1 else 0
leading_space (c ∷ d ∷ []) = if is_ascii_space c then 1 else if is_space2 c d then 2 else 0
leading_space (c ∷ d ∷ e ∷ s) =
    if is_ascii_space c then 1 else if is_space2 c d then 2 else if is_space3 c d e then 3 else 0

-- The same at the end of a string that is given backwards.
unfoldable pub trailing_space : Bytes → ℕ
unfolding is_ascii_space is_space2 is_space3
trailing_space [] = 0
trailing_space (c ∷ []) = if is_ascii_space c then 1 else 0
trailing_space (c ∷ d ∷ []) = if is_ascii_space c then 1 else if is_space2 d c then 2 else 0
trailing_space (c ∷ d ∷ e ∷ s) =
    if is_ascii_space c then 1 else if is_space2 d c then 2 else if is_space3 e d c then 3 else 0

-- The fuel bounds the characters that are removed.
unfoldable pub trim_with : (Bytes → ℕ) → ℕ → Bytes → Bytes
trim_with spaces zero s = s
trim_with spaces (suc fuel) s =
    let rest = trim_with spaces fuel (drop (spaces s) s) in if spaces s == 0 then s else rest

unfoldable pub trim_space : Bytes → Bytes
unfolding trim_with
trim_space s =
    let t = trim_with leading_space (length s) s in
    reverse (trim_with trailing_space (length t) (reverse t))

-- Nothing is trimmed where no byte is white space or outside of ASCII.
unfoldable pub is_graphic : ℕ → Bool
is_graphic c = leb 0x21 c && leb c 0x7e

all-reverse : (p : ℕ → Bool) (s : Bytes) → all p s ≡ true → all p (reverse s) ≡ true
all-reverse p [] h = refl
all-reverse p (c ∷ s) h =
    ap (all p) (reverse-cons c s)
    ∙ all-append p (reverse s) (c ∷ [])
    ∙ ground (arith, all-reverse p s)

leading_space-graphic : (s : Bytes) → all is_graphic s ≡ true → leading_space s ≡ 0
unfolding leading_space is_graphic is_ascii_space is_space2 is_space3
leading_space-graphic [] h = refl
leading_space-graphic (c ∷ []) h = ground arith
leading_space-graphic (c ∷ d ∷ []) h = ground arith
leading_space-graphic (c ∷ d ∷ e ∷ s) h = ground arith

trailing_space-graphic : (s : Bytes) → all is_graphic s ≡ true → trailing_space s ≡ 0
unfolding trailing_space is_graphic is_ascii_space is_space2 is_space3
trailing_space-graphic [] h = refl
trailing_space-graphic (c ∷ []) h = ground arith
trailing_space-graphic (c ∷ d ∷ []) h = ground arith
trailing_space-graphic (c ∷ d ∷ e ∷ s) h = ground arith

trim_with-none :
    (spaces : Bytes → ℕ) (fuel : ℕ) (s : Bytes) → spaces s ≡ 0 → trim_with spaces fuel s ≡ s
unfolding trim_with
trim_with-none spaces zero s h = refl
trim_with-none spaces (suc fuel) s h =
    let none_left : (spaces s == 0) ≡ true = ground (arith, h) in rw none_left refl

pub trim_space-graphic : (s : Bytes) → all is_graphic s ≡ true → trim_space s ≡ s
unfolding trim_space
trim_space-graphic s h =
    let whole = trim_with-none leading_space (length s) s (leading_space-graphic s h) in
    ap (λ t. reverse (trim_with trailing_space (length t) (reverse t))) whole
    ∙ ap reverse (
        trim_with-none trailing_space (length s) (reverse s)
          (trailing_space-graphic (reverse s) (all-reverse is_graphic s h)))
    ∙ reverse-reverse s
