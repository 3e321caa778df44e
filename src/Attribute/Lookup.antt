-- ===== src/Attribute/Lookup.antt =====
-- The values that a list of attributes has for a key: the description that sets, spans and resources
-- are compared with.
use opentelemetry_go.Prelude.{
  ◌≡◌, refl, List, [], ◌∷◌, ◌++◌, Option, none, some, arith, if◌then◌else◌, Bytes, eq_bytes,
}
use opentelemetry_go.Attribute.{Value, KeyValue}

-- The first, and the last, value of the key.
abbrev pub first_value : Bytes → List KeyValue → Option Value
first_value k [] = none
first_value k (a ∷ l) = if eq_bytes a.key k then some a.value else first_value k l

abbrev pub or_else : Option Value → Option Value → Option Value
or_else (some v) w = some v
or_else none w = w

abbrev pub last_value : Bytes → List KeyValue → Option Value
last_value k [] = none
last_value k (a ∷ l) = or_else (last_value k l) (if eq_bytes a.key k then some a.value else none)

-- The keys of the list differ.
abbrev pub DistinctKeys : List KeyValue → Type 0
DistinctKeys [] = Unit
DistinctKeys (a ∷ l) = (first_value a.key l ≡ none) × DistinctKeys l

module _ (a : KeyValue) (k : Bytes) where
  pub first_value-snoc :
      (xs : List KeyValue)
      → first_value k (xs ++ (a ∷ []))
        ≡ or_else (first_value k xs) (if eq_bytes a.key k then some a.value else none)
  first_value-snoc [] = ground arith
  first_value-snoc (x ∷ xs) = ground (arith, first_value-snoc xs)

pub or_else-none : (o : Option Value) → or_else o none ≡ o
or_else-none none = refl
or_else-none (some v) = refl
