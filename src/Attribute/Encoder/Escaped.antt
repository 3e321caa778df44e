-- ===== src/Attribute/Encoder/Escaped.antt =====
-- What `copyAndEscape` writes of a string in UTF-8, and that lists of such strings are told apart.
use opentelemetry_go.Prelude.{
  ℕ, ◌<◌, ◌≡◌, ◌≢◌, refl, sym, ap, ◌∙◌, ◌||◌, Bool, true, false, inl, inr, Bool-cases, List, [],
  ◌∷◌, ◌++◌, arith, ◌==◌, if◌then◌else◌, Bytes,
}
use opentelemetry_go.Text.Utf8.{
  Encodings, IsUtf8, IsUtf8-Encodings, rune_size-one, rune_size-two, rune_size-three,
  rune_size-four,
}
use opentelemetry_go.Attribute.{string, KeyValue}
use opentelemetry_go.Attribute.Encoder.{is_special, copy_loop, copy_and_escape}

-- The string with a backslash before each byte that is special.
unfoldable pub escaped : Bytes → Bytes
escaped [] = []
escaped (c ∷ cs) = let rest = escaped cs in if is_special c then b'\\' ∷ c ∷ rest else c ∷ rest

special-high : (c : ℕ) → 127 < c → is_special c ≡ false
special-high c h = ground arith

-- Of a string of encodings nothing else is changed.
escape_encodings : {s : Bytes} → Encodings s → copy_and_escape s ≡ escaped s
unfolding copy_and_escape escaped
escape_encodings Encodings.nothing = refl
escape_encodings (Encodings.one {s} a h u) =
    let ih : copy_loop 0 s ≡ escaped s = escape_encodings u in rw (rune_size-one a s h) (rw ih)
escape_encodings (Encodings.two {s} a b h u) =
    let ih : copy_loop 0 s ≡ escaped s = escape_encodings u in
    rw (rune_size-two a b s h)
      (rw (special-high a (ground (arith, h)), special-high b (ground (arith, h))) (rw ih))
escape_encodings (Encodings.three {s} a b c h u) =
    let ih : copy_loop 0 s ≡ escaped s = escape_encodings u in
    rw (rune_size-three a b c s h) (
      rw (special-high a (ground (arith, h)), special-high b (ground (arith, h)))
        (rw (special-high c (ground (arith, h))) (rw ih)))
escape_encodings (Encodings.four {s} a b c d h u) =
    let ih : copy_loop 0 s ≡ escaped s = escape_encodings u in
    rw (rune_size-four a b c d s h) (
      rw (special-high a (ground (arith, h)), special-high b (ground (arith, h)))
        (rw (special-high c (ground (arith, h)), special-high d (ground (arith, h))) (rw ih)))

pub copy_and_escape-escaped : {s : Bytes} → IsUtf8 s → copy_and_escape s ≡ escaped s
copy_and_escape-escaped u = escape_encodings (IsUtf8-Encodings u)

-- What can stand behind an escaped string: nothing, `=` or `,`.
abbrev stops : Bytes → Bool
stops [] = true
stops (c ∷ cs) = c == b'=' || c == b','

escape-special :
    (c : ℕ) (cs r : Bytes)
    → is_special c ≡ true
    → escaped (c ∷ cs) ++ r ≡ b'\\' ∷ c ∷ escaped cs ++ r
unfolding escaped
escape-special c cs r h = rw h refl

escape-plain :
    (c : ℕ) (cs r : Bytes) → is_special c ≡ false → escaped (c ∷ cs) ++ r ≡ c ∷ escaped cs ++ r
unfolding escaped
escape-plain c cs r h = rw h refl

first_byte : Bytes → ℕ
first_byte [] = 0
first_byte (c ∷ cs) = c

-- No escaped string that is not empty starts like what stands behind one.
escape-stops : (c : ℕ) (cs r s : Bytes) → stops s ≡ true → escaped (c ∷ cs) ++ r ≡ s → (c ∷ cs) ≡ []
unfolding first_byte
escape-stops c cs r s h e = elim (Bool-cases (is_special c)) [
  | inl special ↦
      absurd
        (clash (b'\\') (c ∷ escaped cs ++ r) s h (sym (escape-special c cs r special) ∙ e) refl)
  | inr plain ↦
      absurd (
        clash c (escaped cs ++ r) s h (sym (escape-plain c cs r plain) ∙ e) (ground (arith, plain)))
]
  where
    clash :
        (d : ℕ) (ds s : Bytes)
        → stops s ≡ true
        → (d ∷ ds) ≡ s
        → (d == b'=' || d == b',') ≡ false
        → ⊥
    clash d ds [] h e n = cc e
    clash d ds (f ∷ fs) h e n =
        let same : d ≡ f = ap first_byte e in cc (h, n, ap (λ x. x == b'=' || x == b',') same)

rest_of : Bytes → Bytes
rest_of [] = []
rest_of (c ∷ cs) = cs

-- Two strings whose escapes begin one text are the same.
escape_unique :
    (s t r u : Bytes)
    → stops r ≡ true
    → stops u ≡ true
    → escaped s ++ r ≡ escaped t ++ u
    → (s ≡ t) × (r ≡ u)
unfolding first_byte rest_of
escape_unique [] [] r u h k e = (refl, unfold escaped in e)
escape_unique [] (d ∷ ts) r u h k e =
    absurd (cc (escape-stops d ts u r h (sym (unfold escaped in e))))
escape_unique (c ∷ s) [] r u h k e = absurd (cc (escape-stops c s r u k (unfold escaped in e)))
escape_unique (c ∷ s) (d ∷ t) r u h k e = elim (Bool-cases (is_special c)) [
  | inl special ↦ elim (Bool-cases (is_special d)) [
    | inl special' ↦
        let both = sym (escape-special c s r special) ∙ e ∙ escape-special d t u special' in
        let (same, rest) = escape_unique s t r u h k (ap (λ x. rest_of (rest_of x)) both) in
        (ap (λ x. x ∷ s) (ap (λ x. first_byte (rest_of x)) both) ∙ ap (◌∷◌ d) same, rest)
    | inr plain' ↦
        let both = sym (escape-special c s r special) ∙ e ∙ escape-plain d t u plain' in
        let slash : b'\\' ≡ d = ap first_byte both in absurd (cc (plain', ap is_special slash))
  ]
  | inr plain ↦ elim (Bool-cases (is_special d)) [
    | inl special' ↦
        let both = sym (escape-plain c s r plain) ∙ e ∙ escape-special d t u special' in
        let slash : c ≡ b'\\' = ap first_byte both in absurd (cc (plain, ap is_special slash))
    | inr plain' ↦
        let both = sym (escape-plain c s r plain) ∙ e ∙ escape-plain d t u plain' in
        let (same, rest) = escape_unique s t r u h k (ap rest_of both) in
        (ap (λ x. x ∷ s) (ap first_byte both) ∙ ap (◌∷◌ d) same, rest)
  ]
]

-- The keys and strings of attributes that all have strings.
abbrev pub Strings : Type 0
Strings = List (Bytes × Bytes)

abbrev pub attribute_of : Bytes × Bytes → KeyValue
attribute_of p = record { key = p.0; value = string p.1 }

abbrev pub attributes_of : Strings → List KeyValue
attributes_of [] = []
attributes_of (p ∷ l) = attribute_of p ∷ attributes_of l

-- The text of a list, from its second attribute on, and from its first.
abbrev pub tail_text : Strings → Bytes
tail_text [] = []
tail_text (p ∷ l) = let rest = tail_text l in b',' ∷ (escaped p.0 ++ (b'=' ∷ (escaped p.1 ++ rest)))

pub tail_text-stops : (l : Strings) → stops (tail_text l) ≡ true
tail_text-stops [] = refl
tail_text-stops (p ∷ l) = refl

pub pair_unique :
    (p q : Bytes × Bytes) (r u : Bytes)
    → stops r ≡ true
    → stops u ≡ true
    → escaped p.0 ++ (b'=' ∷ (escaped p.1 ++ r)) ≡ escaped q.0 ++ (b'=' ∷ (escaped q.1 ++ u))
    → (p ≡ q) × (r ≡ u)
unfolding rest_of
pair_unique p q r u h k e =
    let (keys, behind) =
      escape_unique p.0 q.0 (b'=' ∷ (escaped p.1 ++ r)) (b'=' ∷ (escaped q.1 ++ u)) refl refl e in
    let (values, rest) = escape_unique p.1 q.1 r u h k (ap rest_of behind) in
    (
      ap {A = Bytes} {B = Bytes × Bytes} (λ x. (x, p.1)) keys
          ∙ ap {A = Bytes} {B = Bytes × Bytes} (λ x. (q.0, x)) values,
      rest,
    )

pub tail_text_unique : (l m : Strings) → tail_text l ≡ tail_text m → l ≡ m
unfolding rest_of
tail_text_unique [] [] e = refl
tail_text_unique [] (q ∷ m) e = absurd (cc e)
tail_text_unique (p ∷ l) [] e = absurd (cc e)
tail_text_unique (p ∷ l) (q ∷ m) e =
    let (first, rest) =
      pair_unique p q (tail_text l) (tail_text m) (tail_text-stops l) (tail_text-stops m)
        (ap rest_of e) in
    ap (λ x. x ∷ l) first ∙ ap (◌∷◌ q) (tail_text_unique l m rest)

pub filled : (a : Bytes) (c : ℕ) (b : Bytes) → (a ++ (c ∷ b)) ≢ []
filled [] c b e = cc e
filled (d ∷ a) c b e = cc e
