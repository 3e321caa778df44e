-- ===== src/Hex.antt =====
-- The parts of Go's `encoding/hex` that trace/trace.go and propagation/trace_context.go call.
pub mod RoundTrip
use opentelemetry_go.Prelude.{
  ℕ, ◌+◌, ◌-◌, ◌*◌, ◌/◌, ◌%◌, Bool, ◌&&◌, ◌||◌, List, [], ◌∷◌, Option, none, some, ltb, leb,
  if◌then◌else◌, Bytes,
}

-- `hextable[n]`, for n < 16
unfoldable pub hex_digit : ℕ → ℕ
hex_digit n = if ltb n 10 then b'0' + n else b'a' + (n - 10)

-- `hex.EncodeToString`
unfoldable pub encode : Bytes → Bytes
unfolding hex_digit
encode [] = []
encode (b ∷ bs) = hex_digit (b / 16) ∷ hex_digit (b % 16) ∷ encode bs

-- `fromHexChar`: upper case letters are read too
unfoldable pub from_hex_char : ℕ → Option ℕ
from_hex_char c =
    if leb b'0' c && leb c b'9'
    then some (c - b'0')
    else if leb b'a' c && leb c b'f'
    then some (c - b'a' + 10)
    else if leb b'A' c && leb c b'F'
    then some (c - b'A' + 10)
    else none

join_digits : Option ℕ → Option ℕ → Option Bytes → Option Bytes
join_digits (some h) (some l) (some bs) = some ((h * 16 + l) ∷ bs)
join_digits _ _ _ = none

-- `hex.DecodeString`; `none` for a bad character or an odd length
unfoldable pub decode_string : Bytes → Option Bytes
unfolding from_hex_char join_digits
decode_string [] = some []
decode_string (c ∷ []) = none
decode_string (c ∷ d ∷ cs) = join_digits (from_hex_char c) (from_hex_char d) (decode_string cs)

-- The characters that the W3C formats allow: `[0-9a-f]`.
unfoldable pub is_lower_hex : ℕ → Bool
is_lower_hex r = leb b'a' r && leb r b'f' || leb b'0' r && leb r b'9'
