-- ===== src/Attribute/Iterator/Slice.antt =====
-- `Set.ToSlice` gives the attributes of the set.
use opentelemetry_go.Prelude.{
  ℕ, zero, suc, ◌<◌, ◌≡◌, refl, ap, ◌∙◌, Bool, false, List, [], ◌∷◌, none, some, arith, ltb, ◌==◌,
  if◌then◌else◌, length, drop,
}
use opentelemetry_go.Prelude.Int.{ℤ, pos, negsuc}
use opentelemetry_go.Attribute.{KeyValue}
use opentelemetry_go.Attribute.Set.{Set, zero_key_value, get}
use opentelemetry_go.Attribute.Iterator.{Iterator, next, attribute, collect, to_slice, set_to_slice}
use opentelemetry_go.Attribute.Iterator.Places.{drop-nil, drop-get, drop-more}

-- An iterator before the place `i`.
record Before (s : Set) (i : ℕ) (z : ℤ) : Type 0 where
  comes :
      next (record { storage = s; idx = z })
      ≡ (ltb i (length s.equivalent), record { storage = s; idx = pos i })

round :
    (fuel : ℕ) (s : Set) (i : ℕ) (z : ℤ)
    → Before s i z
    → collect (suc fuel) (record { storage = s; idx = z }) ≡ (
        if ltb i (length s.equivalent)
        then attribute (record { storage = s; idx = pos i })
          ∷ collect fuel (record { storage = s; idx = pos i })
        else [])
unfolding collect
round fuel s i z b =
    ap {A = Bool × Iterator} {B = List KeyValue}
      (λ r. let rest = collect fuel r.1 in if r.0 then attribute r.1 ∷ rest else []) b.comes

collect-lem :
    (fuel : ℕ) (s : Set) (i : ℕ) (z : ℤ) (l : List KeyValue)
    → Before s i z
    → drop i s.equivalent ≡ l
    → length l < fuel
    → collect fuel (record { storage = s; idx = z }) ≡ l
unfolding get
collect-lem zero s i z l b e h = absurd (omega arith)
collect-lem (suc fuel) s i z [] b e h = round fuel s i z b ∙ rw (drop-nil i s.equivalent e) refl
collect-lem (suc fuel) s i z (a ∷ l) b e h =
    let (low, got) = drop-get i s.equivalent a l e in
    let ih =
      collect-lem fuel s (suc i) (pos i) l (record { comes = refl })
        (drop-more i s.equivalent a l e) (omega (arith, h)) in
    let there : attribute (record { storage = s; idx = pos i }) ≡ a =
      ap (λ o. elim o [ none ↦ zero_key_value | some kv ↦ kv ]) got in
    round fuel s i z b
    ∙ rw low
        (ap (λ x. x ∷ collect fuel (record { storage = s; idx = pos i })) there ∙ ap (◌∷◌ a) ih)

-- `ToSlice` gives the attributes of the set, in their order.
pub to_slice-iter : (s : Set) → set_to_slice s ≡ s.equivalent
unfolding to_slice
to_slice-iter s = sliced s.equivalent refl
  where
    sliced :
        (l : List KeyValue)
        → s.equivalent ≡ l
        → (if length s.equivalent == 0
            then []
            else collect (suc (length s.equivalent)) (record { storage = s; idx = negsuc 0 }))
          ≡ l
    sliced [] e = rw e refl
    sliced (a ∷ l) e =
        let full : (length s.equivalent == 0) ≡ false = ap (λ m. length m == 0) e ∙ ground arith in
        rw full (
          collect-lem (suc (length s.equivalent)) s 0 (negsuc 0) (a ∷ l) (record { comes = refl }) e
            (omega (arith, ap (λ m. length m) e)))
