-- ===== src/Attribute/Set/Search.antt =====
-- `Set.Value` is a binary search: it finds what a linear one would.
use opentelemetry_go.Prelude.{
  ℕ, zero, suc, ◌+◌, ◌/◌, ◌≤◌, ◌<◌, ◌≡◌, refl, sym, ap, ◌∙◌, Bool, true, false, not, inl, inr,
  Bool-cases, List, [], ◌∷◌, Option, none, some, arith, ltb, if◌then◌else◌, Bytes, eq_bytes,
  eq_bytes_iff, length, All,
}
use opentelemetry_go.Attribute.{Value, KeyValue}
use opentelemetry_go.Attribute.Lookup.{first_value, last_value}
use opentelemetry_go.Attribute.Order.{
  ltb_bytes, ltb_bytes_trans, ltb_bytes_total, ltb_bytes-eq_bytes,
}
use opentelemetry_go.Attribute.Set.{less, at, search, value, new_set}
use opentelemetry_go.Attribute.Set.Last.{IsAscending, absent, new_set-last_value}

-- Where a test that holds from some place on begins to hold.
pub record FirstOf (f : ℕ → Bool) (n r : ℕ) : Type 0 where
  pub inside : r ≤ n
  pub before : (x : ℕ) → x < r → f x ≡ false
  pub behind : (x : ℕ) → r ≤ x → x < n → f x ≡ true

module _ (f : ℕ → Bool) (n : ℕ) (rises : (x y : ℕ) → x ≤ y → y < n → f x ≡ true → f y ≡ true) where
  falls : (x y : ℕ) → x ≤ y → y < n → f y ≡ false → f x ≡ false
  falls x y p q fails = elim (Bool-cases (f x)) [
    | inl holds ↦ absurd (cc (rises x y p q holds))
    | inr fails_too ↦ fails_too
  ]

  pub search-FirstOf :
      (fuel i j : ℕ)
      → i ≤ j
      → j ≤ n
      → j ≤ i + fuel
      → ((x : ℕ) → x < i → f x ≡ false)
      → ((x : ℕ) → j ≤ x → x < n → f x ≡ true)
      → FirstOf f n (search fuel f i j)
  unfolding search
  search-FirstOf zero i j p q enough before behind = record {
    inside = omega arith;
    before = before;
    behind = λ x low. behind x (omega (arith, low));
  }
  search-FirstOf (suc fuel) i j p q enough before behind = elim (Bool-cases (ltb i j)) [
    | inl more ↦
        let inside : i < j = ground (arith, more) in
        elim (Bool-cases (f ((i + j) / 2))) [
          | inl holds ↦
              rw (more, holds)
                (search-FirstOf fuel i ((i + j) / 2) (omega arith) (omega arith) (omega arith)
                  before (λ x low high. rises ((i + j) / 2) x low high holds))
          | inr fails ↦
              rw (more, fails)
                (search-FirstOf fuel ((i + j) / 2 + 1) j (omega arith) q (omega arith)
                  (λ x low. falls x ((i + j) / 2) (omega arith) (omega arith) fails) behind)
        ]
    | inr done ↦
        let met : i ≡ j = ground (arith, done) in
        rw done (record {
          inside = omega arith;
          before = before;
          behind = λ x low. behind x (omega (arith, met, low));
        })
  ]

at-All : (P : KeyValue → Type 0) (l : List KeyValue) (y : ℕ) → All P l → y < length l → P (at l y)
at-All P [] y q h = absurd (omega arith)
at-All P (a ∷ l) zero (p, q) h = p
at-All P (a ∷ l) (suc y) (p, q) h = at-All P l y q (omega arith)

-- The keys at two places of an ascending list.
at-ascending :
    (l : List KeyValue) (x y : ℕ)
    → IsAscending l
    → x < y
    → y < length l
    → ltb_bytes (at l x).key (at l y).key ≡ true
at-ascending [] x y s p h = absurd (omega arith)
at-ascending (a ∷ l) x zero s p h = absurd (omega arith)
at-ascending (a ∷ l) zero (suc y) (g, s) p h = at-All (λ b. less a b ≡ true) l y g (omega arith)
at-ascending (a ∷ l) (suc x) (suc y) (g, s) p h = at-ascending l x y s (omega arith) (omega arith)

-- The test of the search.
abbrev reaches : List KeyValue → Bytes → ℕ → Bool
reaches l k idx = not (ltb_bytes (at l idx).key k)

reaches-rises :
    (l : List KeyValue) (k : Bytes)
    → IsAscending l
    → (x y : ℕ) → x ≤ y
    → y < length l
    → reaches l k x ≡ true
    → reaches l k y ≡ true
reaches-rises l k s x y p h holds = elim (Bool-cases (ltb x y)) [
  | inl lower ↦
      let up = at-ascending l x y s (ground (arith, lower)) h in
      ground (arith, up, ltb_bytes_trans (at l x).key (at l y).key k)
  | inr same ↦ let e : x ≡ y = ground (arith, same) in ap (reaches l k) (sym e) ∙ holds
]

-- What `Set.Value` reads at the place that the search returns.
abbrev value_at : List KeyValue → Bytes → ℕ → Option Value
value_at l k idx =
    if not (ltb idx (length l))
    then none
    else if eq_bytes k (at l idx).key
    then some (at l idx).value
    else none

value_at-first_value :
    (l : List KeyValue) (k : Bytes) (r : ℕ)
    → IsAscending l
    → FirstOf (reaches l k) (length l) r
    → value_at l k r ≡ first_value k l
value_at-first_value [] k r s found = ground (arith, found.inside)
value_at-first_value (a ∷ l) k zero (g, s) found =
    let reached : ltb_bytes a.key k ≡ false =
      ground (arith, found.behind 0 (omega arith) (omega arith)) in
    let full : ltb 0 (length (a ∷ l)) ≡ true = ground arith in
    elim (Bool-cases (eq_bytes k a.key)) [
      | inl same ↦
          let back : eq_bytes a.key k ≡ true =
            ground (arith, eq_bytes_iff k a.key, eq_bytes_iff a.key k) in
          rw (full, same, back) refl
      | inr other ↦
          let back : eq_bytes a.key k ≡ false =
            ground (arith, eq_bytes_iff k a.key, eq_bytes_iff a.key k) in
          let first : ltb_bytes k a.key ≡ true =
            ground (arith, eq_bytes_iff k a.key, ltb_bytes_total k a.key) in
          rw (full, other, back) (sym (absent k l (beyond l g first)))
    ]
  where
    beyond :
        (m : List KeyValue)
        → All (λ b. less a b ≡ true) m
        → ltb_bytes k a.key ≡ true
        → All (λ b. ltb_bytes k b.key ≡ true) m
    beyond [] g first = tt
    beyond (b ∷ m) (h, g) first = (ltb_bytes_trans k a.key b.key first h, beyond m g first)
value_at-first_value (a ∷ l) k (suc r) (g, s) found =
    let passed : ltb_bytes a.key k ≡ true = ground (arith, found.before 0 (omega arith)) in
    let other : eq_bytes a.key k ≡ false = ltb_bytes-eq_bytes a.key k passed in
    let less_far : ltb (suc r) (length (a ∷ l)) ≡ ltb r (length l) = ground arith in
    let rest = value_at-first_value l k r s (record {
      inside = omega (arith, found.inside);
      before = λ x p. found.before (suc x) (omega (arith, p));
      behind = λ x p q. found.behind (suc x) (omega (arith, p)) (omega (arith, q));
    }) in
    rw (less_far, other) rest

-- The value that a set built from a list has for a key is the last that the list has for the key.
pub value-new_set : (kvs : List KeyValue) (k : Bytes) → value (new_set kvs) k ≡ last_value k kvs
unfolding value
value-new_set kvs k =
    let (ascending, last) = new_set-last_value kvs in
    let l = (new_set kvs).equivalent in
    let found =
      search-FirstOf (reaches l k) (length l) (reaches-rises l k ascending) (length l) 0 (length l)
        (omega arith) (omega arith) (omega arith) (λ x p. absurd (omega (arith, p)))
        (λ x p q. absurd (omega (arith, p, q))) in
    value_at-first_value l k (search (length l) (reaches l k) 0 (length l)) ascending found ∙ last k
