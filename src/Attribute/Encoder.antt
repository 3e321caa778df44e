-- ===== src/Attribute/Encoder.antt =====
-- attribute/encoder.go: the default encoder, and `Value.Emit` of attribute/value.go. What strconv
-- and fmt write for a number or a slice is a parameter. The pool of buffers and the identifiers of
-- encoders are left out.
pub mod Escaped
pub mod Unique
use opentelemetry_go.Prelude.{
  ℕ, zero, suc, ◌-◌, ◌||◌, Bool, true, false, List, [], ◌∷◌, ◌++◌, ltb, ◌==◌, if◌then◌else◌, Bytes,
  codes,
}
use opentelemetry_go.Prelude.Int.{ℤ, is_positive}
use opentelemetry_go.Text.Utf8.{rune_size}
use opentelemetry_go.Attribute.{
  Value, invalid, bool, int64, float64, string, bool_slice, int64_slice, float64_slice,
  string_slice, KeyValue,
}
use opentelemetry_go.Attribute.Set.{Set, set_length}
use opentelemetry_go.Attribute.Iterator.{Iterator, iter, next, attribute}

-- `=`, `,` and `escapeChar`
abbrev pub is_special : ℕ → Bool
is_special c = c == b'=' || c == b',' || c == b'\\'

-- The loop of `copyAndEscape`, for the number of bytes that are left of a character of which the
-- first byte is written. A bad byte is read, and written, as U+FFFD.
unfoldable pub copy_loop : ℕ → Bytes → Bytes
copy_loop left [] = []
copy_loop (suc left) (c ∷ cs) = c ∷ copy_loop left cs
copy_loop zero (c ∷ cs) =
    let size = rune_size c cs in
    let rest = copy_loop (size - 1) cs in
    let written = if size == 0 then 0xef ∷ 0xbf ∷ 0xbd ∷ rest else c ∷ rest in
    if is_special c then b'\\' ∷ written else written

-- `copyAndEscape`: what it writes
unfoldable pub copy_and_escape : Bytes → Bytes
unfolding copy_loop
copy_and_escape val = copy_loop 0 val

module _ (format : Value → Bytes) where
  -- `Value.Emit`
  unfoldable pub emit : Value → Bytes
  emit invalid = codes "unknown"
  emit (bool true) = codes "true"
  emit (bool false) = codes "false"
  emit (string s) = s
  emit v = format v

  -- The value of an attribute: only strings are escaped.
  unfoldable pub encode_value : Value → Bytes
  unfolding emit
  encode_value (string s) = copy_and_escape s
  encode_value v = emit v

  -- The body of the loop, for the index and the attribute.
  abbrev pub encode_attribute : ℤ → KeyValue → Bytes
  encode_attribute i kv =
      (if is_positive i then b',' ∷ [] else [])
      ++ (copy_and_escape kv.key ++ (b'=' ∷ encode_value kv.value))

  -- The loop, with fuel.
  unfoldable pub encode_loop : ℕ → Iterator → Bytes
  unfolding encode_value
  encode_loop zero i = []
  encode_loop (suc fuel) i =
      let (more, i') = next i in
      let rest = encode_loop fuel i' in
      if more then encode_attribute i'.idx (attribute i') ++ rest else []

  -- `defaultAttrEncoder.Encode`
  unfoldable pub default_encode : Iterator → Bytes
  unfolding encode_loop
  default_encode i = encode_loop (suc (set_length i.storage)) i

  -- `Set.Encoded`, with the default encoder
  abbrev pub encoded : Set → Bytes
  encoded l = default_encode (iter l)
