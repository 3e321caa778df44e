-- ===== src/Hex/RoundTrip.antt =====
-- Encoding and decoding are inverse on bytes and on lower case hex strings.
use opentelemetry_go.Prelude.{
  ℕ, zero, suc, ◌+◌, ◌-◌, ◌*◌, ◌/◌, ◌%◌, ◌<◌, ◌≡◌, refl, ap, true, [], ◌∷◌, some, arith, length,
  leb, if◌then◌else◌, Bytes, all, All, IsByte,
}
use opentelemetry_go.Hex.{hex_digit, encode, from_hex_char, decode_string, is_lower_hex}

from_hex_char-hex_digit : (n : ℕ) → n < 16 → from_hex_char (hex_digit n) ≡ some n
unfolding from_hex_char hex_digit
from_hex_char-hex_digit n h = ground arith

is_lower_hex-hex_digit : (n : ℕ) → n < 16 → is_lower_hex (hex_digit n) ≡ true
unfolding is_lower_hex hex_digit
is_lower_hex-hex_digit n h = ground arith

lower_value : ℕ → ℕ
lower_value c = if leb c b'9' then c - b'0' else c - b'a' + 10

-- A lower case digit is the digit of a number below 16.
hex_digit-lower_value :
    (c : ℕ)
    → is_lower_hex c ≡ true
    → (from_hex_char c ≡ some (lower_value c))
      × (lower_value c < 16)
      × (hex_digit (lower_value c) ≡ c)
unfolding is_lower_hex from_hex_char hex_digit lower_value
hex_digit-lower_value c h = (ground arith, ground arith, ground arith)

pub length-encode : (bs : Bytes) → length (encode bs) ≡ 2 * length bs
unfolding encode
length-encode [] = refl
length-encode (b ∷ bs) = omega (arith, length-encode bs)

pub encode-is_lower_hex : (bs : Bytes) → All IsByte bs → all is_lower_hex (encode bs) ≡ true
unfolding encode
encode-is_lower_hex [] h = refl
encode-is_lower_hex (b ∷ bs) (h, hs) = ground (
  arith,
  is_lower_hex-hex_digit (b / 16),
  is_lower_hex-hex_digit (b % 16),
  encode-is_lower_hex bs hs,
)

pub decode_string-encode : (bs : Bytes) → All IsByte bs → decode_string (encode bs) ≡ some bs
unfolding decode_string encode
decode_string-encode [] h = refl
decode_string-encode (b ∷ bs) (h, hs) = ground (
  arith,
  from_hex_char-hex_digit (b / 16),
  from_hex_char-hex_digit (b % 16),
  decode_string-encode bs hs,
)

-- What the decoder makes of a lower case string of even length, and that the encoder undoes it.
pub record Decodes (h : Bytes) (n : ℕ) : Type 0 where
  pub bytes : Bytes
  pub decoded : decode_string h ≡ some bytes
  pub long : length bytes ≡ n
  pub in_range : All IsByte bytes
  pub encoded : encode bytes ≡ h

Decodes-cons :
    (c d : ℕ) (cs : Bytes) (n : ℕ)
    → is_lower_hex c ≡ true
    → is_lower_hex d ≡ true
    → Decodes cs n
    → Decodes (c ∷ d ∷ cs) (suc n)
unfolding decode_string encode
Decodes-cons c d cs n hc hd r =
    let (fc, lc, ec) = hex_digit-lower_value c hc in
    let (fd, ld, ed) = hex_digit-lower_value d hd in
    let b = lower_value c * 16 + lower_value d in
    let high : b / 16 ≡ lower_value c = omega arith in
    let low : b % 16 ≡ lower_value d = omega arith in
    record {
      bytes = b ∷ r.bytes;
      decoded = rw (fc, fd, r.decoded);
      long = ap suc r.long;
      in_range = (omega arith, r.in_range);
      encoded = cc (high, low, ec, ed, r.encoded);
    }

pub decode_string-lower :
    (h : Bytes) (n : ℕ) → all is_lower_hex h ≡ true → length h ≡ 2 * n → Decodes h n
unfolding decode_string encode
decode_string-lower [] n p e = record {
  bytes = [];
  decoded = refl;
  long = omega arith;
  in_range = tt;
  encoded = refl;
}
decode_string-lower (c ∷ []) n p e = absurd (omega arith)
decode_string-lower (c ∷ d ∷ cs) zero p e = absurd (omega arith)
decode_string-lower (c ∷ d ∷ cs) (suc n) p e =
    let hc : is_lower_hex c ≡ true = ground arith in
    let hd : is_lower_hex d ≡ true = ground arith in
    let rest : all is_lower_hex cs ≡ true = ground arith in
    Decodes-cons c d cs n hc hd (decode_string-lower cs n rest (omega arith))
