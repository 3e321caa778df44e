-- ===== src/Text/Utf8.antt =====
-- The characters that a Go loop over a string reads, `for _, ch := range val`, as the language
-- defines it: the encodings of UTF-8, and else a bad byte, which is read as U+FFFD.
use opentelemetry_go.Prelude.{
  ℕ, ◌+◌, ◌/◌, ◌%◌, ◌≤◌, ◌<◌, ◌≡◌, ◌⊎◌, inl, inr, Bool, true, Bool-cases, ◌&&◌, ◌==◌, leb, ltb,
  if◌then◌else◌, [], ◌∷◌, ◌++◌, Bytes, arith,
}

abbrev between : ℕ → ℕ → ℕ → Bool
between low high c = leb low c && leb c high

-- The encodings of two, three and four bytes: no longer than needed, no surrogate, at most U+10FFFF.
abbrev pub is_two : ℕ → ℕ → Bool
is_two a b = between 194 223 a && between 128 191 b

abbrev pub is_three : ℕ → ℕ → ℕ → Bool
is_three a b c =
    between 224 239 a
    && (between (if a == 224 then 160 else 128) (if a == 237 then 159 else 191) b
        && between 128 191 c)

abbrev pub is_four : ℕ → ℕ → ℕ → ℕ → Bool
is_four a b c d =
    between 240 244 a
    && (between (if a == 240 then 144 else 128) (if a == 244 then 143 else 191) b
        && (between 128 191 c && between 128 191 d))

two_size : ℕ → Bytes → ℕ
two_size a [] = 0
two_size a (b ∷ s) = if is_two a b then 2 else 0

three_size : ℕ → Bytes → ℕ
three_size a [] = 0
three_size a (b ∷ []) = 0
three_size a (b ∷ c ∷ s) = if is_three a b c then 3 else 0

four_size : ℕ → Bytes → ℕ
four_size a [] = 0
four_size a (b ∷ []) = 0
four_size a (b ∷ c ∷ []) = 0
four_size a (b ∷ c ∷ d ∷ s) = if is_four a b c d then 4 else 0

-- The length of the encoding that begins with the byte; 0 for a bad byte.
unfoldable pub rune_size : ℕ → Bytes → ℕ
unfolding two_size three_size four_size
rune_size a s =
    if ltb a 128
    then 1
    else if ltb a 224
    then two_size a s
    else if ltb a 240
    then three_size a s
    else four_size a s

-- A string of such encodings.
pub data Encodings : Bytes → Type 0 where
  nothing : Encodings []
  one : {s : Bytes} (a : ℕ) → a < 128 → Encodings s → Encodings (a ∷ s)
  two : {s : Bytes} (a b : ℕ) → is_two a b ≡ true → Encodings s → Encodings (a ∷ b ∷ s)
  three : {s : Bytes} (a b c : ℕ) → is_three a b c ≡ true → Encodings s → Encodings (a ∷ b ∷ c ∷ s)
  four :
      {s : Bytes} (a b c d : ℕ)
      → is_four a b c d ≡ true
      → Encodings s
      → Encodings (a ∷ b ∷ c ∷ d ∷ s)

pub rune_size-one : (a : ℕ) (s : Bytes) → a < 128 → rune_size a s ≡ 1
unfolding rune_size
rune_size-one a s h = ground arith

pub rune_size-two : (a b : ℕ) (s : Bytes) → is_two a b ≡ true → rune_size a (b ∷ s) ≡ 2
unfolding rune_size
rune_size-two a b s h = ground (arith, h)

pub rune_size-three : (a b c : ℕ) (s : Bytes) → is_three a b c ≡ true → rune_size a (b ∷ c ∷ s) ≡ 3
unfolding rune_size
rune_size-three a b c s h = ground (arith, h)

pub rune_size-four :
    (a b c d : ℕ) (s : Bytes) → is_four a b c d ≡ true → rune_size a (b ∷ c ∷ d ∷ s) ≡ 4
unfolding rune_size
rune_size-four a b c d s h = ground (arith, h)

-- The encoding of a code point in UTF-8.
abbrev pub utf8 : ℕ → Bytes
utf8 ch =
    if ltb ch 0x80
    then ch ∷ []
    else if ltb ch 0x800
    then (0xc0 + ch / 64) ∷ (0x80 + ch % 64) ∷ []
    else if ltb ch 0x10000
    then (0xe0 + ch / 4096) ∷ (0x80 + ch / 64 % 64) ∷ (0x80 + ch % 64) ∷ []
    else (0xf0 + ch / 262144)
      ∷ (0x80 + ch / 4096 % 64)
      ∷ (0x80 + ch / 64 % 64)
      ∷ (0x80 + ch % 64)
      ∷ []

-- A string in UTF-8: the encodings of code points up to U+10FFFF, none of them a surrogate.
pub data IsUtf8 : Bytes → Type 0 where
  nothing : IsUtf8 []
  character :
      {s : Bytes} (ch : ℕ)
      → ch < 0x110000
      → (ch < 0xd800) ⊎ (0xe000 ≤ ch)
      → IsUtf8 s
      → IsUtf8 (utf8 ch ++ s)

two_bytes : (ch : ℕ) → 0x80 ≤ ch → ch < 0x800 → is_two (0xc0 + ch / 64) (0x80 + ch % 64) ≡ true
two_bytes ch l h = ground arith

three_bytes :
    (ch : ℕ)
    → 0x800 ≤ ch
    → ch < 0x10000
    → (ch < 0xd800) ⊎ (0xe000 ≤ ch)
    → is_three (0xe0 + ch / 4096) (0x80 + ch / 64 % 64) (0x80 + ch % 64) ≡ true
three_bytes ch l h (inl low) = ground arith
three_bytes ch l h (inr high) = ground arith

four_bytes :
    (ch : ℕ)
    → 0x10000 ≤ ch
    → ch < 0x110000
    → is_four (0xf0 + ch / 262144) (0x80 + ch / 4096 % 64) (0x80 + ch / 64 % 64) (0x80 + ch % 64)
      ≡ true
four_bytes ch l h = ground arith

pub IsUtf8-Encodings : {s : Bytes} → IsUtf8 s → Encodings s
IsUtf8-Encodings IsUtf8.nothing = Encodings.nothing
IsUtf8-Encodings (IsUtf8.character {s} ch h free u) =
    let rest = IsUtf8-Encodings u in
    elim (Bool-cases (ltb ch 0x80)) [
      | inl small ↦ rw small (Encodings.one ch (ground (arith, small)) rest)
      | inr more ↦ elim (Bool-cases (ltb ch 0x800)) [
        | inl small ↦
            rw (more, small)
              (Encodings.two _ _ (two_bytes ch (ground (arith, more)) (ground (arith, small))) rest)
        | inr more' ↦ elim (Bool-cases (ltb ch 0x10000)) [
          | inl small ↦
              rw (more, more', small)
                (Encodings.three _ _ _
                  (three_bytes ch (ground (arith, more')) (ground (arith, small)) free) rest)
          | inr large ↦
              rw (more, more', large)
                (Encodings.four _ _ _ _ (four_bytes ch (ground (arith, large)) h) rest)
        ]
      ]
    ]
