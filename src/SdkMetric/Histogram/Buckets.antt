-- ===== src/SdkMetric/Histogram/Buckets.antt =====
-- The linear search of `Update` finds the bucket that the binary search in its comment finds.
use opentelemetry_go.Prelude.{
  ℕ, zero, suc, ◌+◌, ◌≤◌, ◌<◌, ◌≡◌, Bool, true, false, inl, inr, Bool-cases, List, [], ◌∷◌, arith,
  ltb, length, get_or, All,
}
use opentelemetry_go.Attribute.Set.{search}
use opentelemetry_go.Attribute.Set.Search.{FirstOf, search-FirstOf}
use opentelemetry_go.SdkMetric.Histogram.{bucket_from, bucket_id}

-- Where a test begins to hold is one place only.
FirstOf-unique : (f : ℕ → Bool) (n r r' : ℕ) → FirstOf f n r → FirstOf f n r' → r ≡ r'
FirstOf-unique f n r r' a b = elim (Bool-cases (ltb r r')) [
  | inl lower ↦
      let p : r < r' = ground (arith, lower) in
      absurd (cc (a.behind r (omega arith) (omega (arith, p, b.inside)), b.before r p))
  | inr not_lower ↦ elim (Bool-cases (ltb r' r)) [
    | inl higher ↦
        let p : r' < r = ground (arith, higher) in
        absurd (cc (b.behind r' (omega arith) (omega (arith, p, a.inside)), a.before r' p))
    | inr not_higher ↦ ground (arith, not_lower, not_higher)
  ]
]

module _ {N F : Type 0} (to_float : N → F) (lt : F → F → Bool) (add : N → N → N)
    (zero_number : N) where
  -- Each boundary is at most those behind it: what is less than it is less than they are.
  abbrev pub IsRising : List F → Type 0
  IsRising [] = Unit
  IsRising (b ∷ bs) = All (λ c. (x : F) → lt x b ≡ true → lt x c ≡ true) bs × IsRising bs

  module _ (x bottom : F) where
    -- The test of the searches.
    abbrev below : List F → ℕ → Bool
    below bs i = lt x (get_or bs i bottom)

    all_below :
        (b : F) (bs : List F) (j : ℕ)
        → All (λ c. (x : F) → lt x b ≡ true → lt x c ≡ true) bs
        → lt x b ≡ true
        → j < length bs
        → below bs j ≡ true
    all_below b [] j h p q = absurd (omega arith)
    all_below b (c ∷ bs) zero (h, hs) p q = h x p
    all_below b (c ∷ bs) (suc j) (h, hs) p q = all_below b bs j hs p (omega arith)

    rises :
        (bs : List F)
        → IsRising bs
        → (i j : ℕ) → i ≤ j
        → j < length bs
        → below bs i ≡ true
        → below bs j ≡ true
    rises [] s i j p q h = absurd (omega arith)
    rises (b ∷ bs) (g, s) zero zero p q h = h
    rises (b ∷ bs) (g, s) zero (suc j) p q h = all_below b bs j g h (omega arith)
    rises (b ∷ bs) (g, s) (suc i) zero p q h = absurd (omega arith)
    rises (b ∷ bs) (g, s) (suc i) (suc j) p q h = rises bs s i j (omega arith) (omega arith) h

    -- The linear search, from an index on.
    bucket_from-offset :
        (i : ℕ) (bs : List F)
        → bucket_from to_float lt add zero_number i x bs
          ≡ i + bucket_from to_float lt add zero_number 0 x bs
    unfolding bucket_from
    bucket_from-offset i [] = omega arith
    bucket_from-offset i (b ∷ bs) =
        ground (arith, bucket_from-offset (suc i) bs, bucket_from-offset 1 bs)

    cons_before :
        (b : F) (bs : List F) (r : ℕ)
        → lt x b ≡ false
        → ((i : ℕ) → i < r → below bs i ≡ false)
        → (i : ℕ) → i < 1 + r
        → below (b ∷ bs) i ≡ false
    cons_before b bs r there before zero p = there
    cons_before b bs r there before (suc i) p = before i (omega arith)

    cons_behind :
        (b : F) (bs : List F) (r : ℕ)
        → ((i : ℕ) → r ≤ i → i < length bs → below bs i ≡ true)
        → (i : ℕ) → 1 + r ≤ i
        → i < length (b ∷ bs)
        → below (b ∷ bs) i ≡ true
    cons_behind b bs r behind zero p q = absurd (omega arith)
    cons_behind b bs r behind (suc i) p q = behind i (omega arith) (omega arith)

    bucket_id-FirstOf :
        (bs : List F)
        → IsRising bs
        → FirstOf (below bs) (length bs) (bucket_id to_float lt add zero_number x bs)
    unfolding bucket_from
    bucket_id-FirstOf [] s = record {
      inside = omega arith;
      before = λ i p. absurd (omega (arith, p));
      behind = λ i p q. absurd (omega (arith, q));
    }
    bucket_id-FirstOf (b ∷ bs) (g, s) = elim (Bool-cases (lt x b)) [
      | inl here ↦ rw here (record {
        inside = omega arith;
        before = λ i p. absurd (omega (arith, p));
        behind = λ i p q. rises (b ∷ bs) (g, s) 0 i (omega arith) q here;
      })
      | inr there ↦
          let ih = bucket_id-FirstOf bs s in
          rw (there, bucket_from-offset 1 bs)
            (record {
              inside = omega (arith, ih.inside);
              before =
                  cons_before b bs (bucket_id to_float lt add zero_number x bs) there ih.before;
              behind = cons_behind b bs (bucket_id to_float lt add zero_number x bs) ih.behind;
            })
    ]

    -- For boundaries in order, the linear search of `Update` finds the bucket that the binary search of
    -- its comment, `sort.Search(len(c.boundaries), ...)`, finds: the first boundary that the value is less
    -- than, or the last bucket.
    pub bucket_id-search :
        (bs : List F)
        → IsRising bs
        → bucket_id to_float lt add zero_number x bs ≡ search (length bs) (below bs) 0 (length bs)
    bucket_id-search bs s =
        FirstOf-unique (below bs) (length bs) (bucket_id to_float lt add zero_number x bs)
          (search (length bs) (below bs) 0 (length bs)) (bucket_id-FirstOf bs s)
          (search-FirstOf (below bs) (length bs) (rises bs s) (length bs) 0 (length bs)
            (omega arith) (omega arith) (omega arith) (λ i p. absurd (omega (arith, p)))
            (λ i p q. absurd (omega (arith, p, q))))
