-- ===== src/Attribute.antt =====
-- The package `attribute`: keys, values and pairs (attribute/key.go, attribute/value.go,
-- attribute/kv.go). A float is its 64 bits.
pub mod Lookup
pub mod Order
pub mod Set
pub mod Iterator
pub mod Encoder
use opentelemetry_go.Prelude.{ℕ, Bool, true, false, not, ◌&&◌, List, ◌==◌, Bytes, length}
use opentelemetry_go.Prelude.Int.{ℤ}

-- `Value`: the type `Type` and the field that it reads
pub data Value : Type 0 where
  invalid : Value
  bool : Bool → Value
  int64 : ℤ → Value
  float64 : ℕ → Value
  string : Bytes → Value
  bool_slice : List Bool → Value
  int64_slice : List ℤ → Value
  float64_slice : List ℕ → Value
  string_slice : List Bytes → Value

-- `KeyValue`
pub record KeyValue : Type 0 where
  pub key : Bytes
  pub value : Value

-- `Key.Defined`
abbrev pub defined : Bytes → Bool
defined k = not (length k == 0)

-- `Value.Type() != INVALID`
abbrev pub is_typed : Value → Bool
is_typed invalid = false
is_typed _ = true

-- `KeyValue.Valid`
unfoldable pub is_valid_attr : KeyValue → Bool
is_valid_attr kv = defined kv.key && is_typed kv.value
