-- ===== src/Attribute/Order.antt =====
-- `<` on Go strings, by which attributes are sorted, and that it is a strict total order.
use opentelemetry_go.Prelude.{
  ◌≡◌, refl, Bool, true, false, [], ◌∷◌, arith, ltb, ◌==◌, if◌then◌else◌, Bytes, eq_bytes,
  eq_bytes_iff,
}

-- `a < b`
unfoldable pub ltb_bytes : Bytes → Bytes → Bool
ltb_bytes [] [] = false
ltb_bytes [] (d ∷ b) = true
ltb_bytes (c ∷ a) [] = false
ltb_bytes (c ∷ a) (d ∷ b) = let rest = ltb_bytes a b in if c == d then rest else ltb c d

pub ltb_bytes_irrefl : (a : Bytes) → ltb_bytes a a ≡ false
unfolding ltb_bytes
ltb_bytes_irrefl [] = refl
ltb_bytes_irrefl (c ∷ a) = ground (arith, ltb_bytes_irrefl a)

pub ltb_bytes_trans :
    (a b c : Bytes) → ltb_bytes a b ≡ true → ltb_bytes b c ≡ true → ltb_bytes a c ≡ true
unfolding ltb_bytes
ltb_bytes_trans [] [] c p q = cc
ltb_bytes_trans [] (y ∷ b) [] p q = cc
ltb_bytes_trans [] (y ∷ b) (z ∷ c) p q = refl
ltb_bytes_trans (x ∷ a) [] c p q = cc
ltb_bytes_trans (x ∷ a) (y ∷ b) [] p q = cc
ltb_bytes_trans (x ∷ a) (y ∷ b) (z ∷ c) p q = ground (arith, ltb_bytes_trans a b c)

-- Of two strings that are not in order either way, the one is the other.
pub ltb_bytes_total : (a b : Bytes) → ltb_bytes a b ≡ false → ltb_bytes b a ≡ false → a ≡ b
unfolding ltb_bytes
ltb_bytes_total [] [] p q = refl
ltb_bytes_total [] (y ∷ b) p q = cc
ltb_bytes_total (x ∷ a) [] p q = cc
ltb_bytes_total (x ∷ a) (y ∷ b) p q = ground (arith, ltb_bytes_total a b)

pub ltb_bytes_asymm : (a b : Bytes) → ltb_bytes a b ≡ true → ltb_bytes b a ≡ false
ltb_bytes_asymm a b p = ground (arith, ltb_bytes_trans a b a, ltb_bytes_irrefl a)

-- Strings in order differ.
pub ltb_bytes-eq_bytes : (a b : Bytes) → ltb_bytes a b ≡ true → eq_bytes a b ≡ false
ltb_bytes-eq_bytes a b p = ground (arith, ltb_bytes_irrefl a, eq_bytes_iff a b)
