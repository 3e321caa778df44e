-- ===== src/Attribute/Set/Filtered.antt =====
-- What a filter keeps of a set, and what it excludes.
use mathlib.Core.List.{Perm}
use mathlib.Core.List.Perm
use mathlib.Core.Path.{subst}
use opentelemetry_go.Prelude.{
  ℕ, suc, ◌+◌, ◌≡◌, refl, sym, ap, ◌∙◌, Bool, true, false, not, inl, inr, Bool-cases, List, [], ◌∷◌,
  ◌++◌, Option, none, some, arith, ◌==◌, if◌then◌else◌, Bytes, eq_bytes, eq_bytes_iff, length, take,
  drop, All,
}
use opentelemetry_go.Attribute.{Value, KeyValue}
use opentelemetry_go.Attribute.Lookup.{first_value, last_value}
use opentelemetry_go.Attribute.Set.{
  less, Kept, filter_step, filter_loop, filter_set, sort_distinct, new_set_from, new_set_filtered,
  new_set,
}
use opentelemetry_go.Attribute.Set.Last.{IsAscending, absent, drop-append, new_set-last_value}
use opentelemetry_go.Attribute.Set.Swap.{onto, length-onto, at-front, state, state-drop, state-keep}

-- The attributes that satisfy the test, in their order.
abbrev pub chosen : (KeyValue → Bool) → List KeyValue → List KeyValue
chosen f [] = []
chosen f (a ∷ l) = let rest = chosen f l in if f a then a ∷ rest else rest

-- A list as one that is read backwards.
record Backwards (kvs : List KeyValue) : Type 0 where
  front : List KeyValue
  kvs_is : kvs ≡ onto front []

onto-Backwards : (l front : List KeyValue) → Backwards (onto front l)
onto-Backwards [] front = record { front = front; kvs_is = refl }
onto-Backwards (x ∷ l) front = onto-Backwards l (x ∷ front)

module _ (f : KeyValue → Bool) where
  abbrev refused : KeyValue → Bool
  refused a = not (f a)

  filter_step-kept :
      (x : KeyValue) (front dropped kept : List KeyValue)
      → f x ≡ true
      → (others : List KeyValue) × Perm others dropped
        × (filter_step f (length front) (state (x ∷ front) dropped kept)
            ≡ state front others (x ∷ kept))
  unfolding filter_step
  filter_step-kept x front dropped kept h =
      let (others, same, moved) = state-keep x front dropped kept in
      (others, same, rw (ap f (at-front front x (dropped ++ kept)) ∙ h) moved)

  filter_step-refused :
      (x : KeyValue) (front dropped kept : List KeyValue)
      → f x ≡ false
      → filter_step f (length front) (state (x ∷ front) dropped kept)
        ≡ state front (x ∷ dropped) kept
  unfolding filter_step
  filter_step-refused x front dropped kept h =
      rw (ap f (at-front front x (dropped ++ kept)) ∙ h) (state-drop x front dropped kept)

  -- Where the loop ends.
  record FilterLooped (l : List KeyValue) (k : Kept) : Type 0 where
    others : List KeyValue
    same : Perm others (chosen refused l)
    ends : k ≡ state [] others (chosen f l)

  filter_loop-looped :
      (front dropped l : List KeyValue)
      → Perm dropped (chosen refused l)
      → FilterLooped
          (onto front l)
          (filter_loop f (length front) (state front dropped (chosen f l)))
  unfolding filter_loop
  filter_loop-looped [] dropped l p = record { others = dropped; same = p; ends = refl }
  filter_loop-looped (x ∷ front) dropped l p = elim (Bool-cases (f x)) [
    | inl keep ↦
        let (others, same, moved) = filter_step-kept x front dropped (chosen f l) keep in
        let ih = filter_loop-looped front others (x ∷ l) (rw keep (Perm.trans same p)) in
        let kept : chosen f (x ∷ l) ≡ x ∷ chosen f l = rw keep refl in
        record {
          others = ih.others;
          same = ih.same;
          ends =
              ap (filter_loop f (length front)) (moved ∙ ap (state front others) (sym kept))
              ∙ ih.ends;
        }
    | inr refuse ↦
        let ih = filter_loop-looped front (x ∷ dropped) (x ∷ l) (rw refuse (Perm.cons x p)) in
        let kept : chosen f (x ∷ l) ≡ chosen f l = rw refuse refl in
        record {
          others = ih.others;
          same = ih.same;
          ends =
              ap (filter_loop f (length front)) (
                filter_step-refused x front dropped (chosen f l) refuse
                ∙ ap (state front (x ∷ dropped)) (sym kept))
              ∙ ih.ends;
        }
  ]

  take-append :
      (l : List KeyValue) (n : ℕ) → n ≡ length l → (m : List KeyValue) → take n (l ++ m) ≡ l
  take-append l n e m = ap (λ i. take i (l ++ m)) e ∙ whole l
    where
      whole : (l : List KeyValue) → take (length l) (l ++ m) ≡ l
      whole [] = refl
      whole (a ∷ l) = ap (◌∷◌ a) (whole l)

  pub filter_set-chosen :
      (kvs : List KeyValue)
      → (let k = filter_set kvs f in drop k.position k.kvs ≡ chosen f kvs)
        × (let k = filter_set kvs f in Perm (take k.position k.kvs) (chosen refused kvs))
  unfolding filter_set
  filter_set-chosen kvs =
      let b = onto-Backwards kvs [] in
      let looped = filter_loop-looped b.front [] [] Perm.rfl in
      let long : length kvs ≡ length b.front =
        ap (λ l. length l) b.kvs_is ∙ omega (arith, length-onto b.front []) in
      let ends : filter_loop f (length kvs) (record { kvs = kvs; position = length kvs })
          ≡ state [] looped.others (chosen f (onto b.front [])) =
        ap {A = List KeyValue} {B = Kept}
          (λ l. filter_loop f (length kvs) (record { kvs = l; position = length kvs })) b.kvs_is
        ∙ ap {A = ℕ} {B = Kept}
            (λ n. filter_loop f n (record { kvs = onto b.front []; position = n })) long
        ∙ ap {A = ℕ} {B = Kept}
            (λ n. filter_loop f (length b.front) (record { kvs = onto b.front []; position = n }))
            (omega arith)
        ∙ looped.ends in
      let others = looped.others in
      let kept = chosen f (onto b.front []) in
      (
        ap {A = Kept} {B = List KeyValue} (λ k. drop k.position k.kvs) ends
            ∙ drop-append others (0 + length others) (omega arith) kept
            ∙ ap (chosen f) (sym b.kvs_is),
        subst (λ l. Perm l (chosen refused kvs))
            (sym (
              ap {A = Kept} {B = List KeyValue} (λ k. take k.position k.kvs) ends
              ∙ take-append others (0 + length others) (omega arith) kept))
            (subst (λ l. Perm others (chosen refused l)) (sym b.kvs_is) looped.same),
      )

  All-chosen : (P : KeyValue → Type 0) (l : List KeyValue) → All P l → All P (chosen f l)
  All-chosen P [] q = tt
  All-chosen P (a ∷ l) (p, q) = elim (Bool-cases (f a)) [
    | inl keep ↦ rw keep (p, All-chosen P l q)
    | inr refuse ↦ rw refuse (All-chosen P l q)
  ]

  chosen-IsAscending : (l : List KeyValue) → IsAscending l → IsAscending (chosen f l)
  chosen-IsAscending [] s = tt
  chosen-IsAscending (a ∷ l) (g, s) = elim (Bool-cases (f a)) [
    | inl keep ↦ rw keep (All-chosen (λ b. less a b ≡ true) l g, chosen-IsAscending l s)
    | inr refuse ↦ rw refuse (chosen-IsAscending l s)
  ]

  -- What the filter leaves of the value of a key.
  abbrev pub passed : Bytes → Option Value → Option Value
  passed k none = none
  passed k (some v) = if f (record { key = k; value = v }) then some v else none

  chosen-first_value :
      (l : List KeyValue) (k : Bytes)
      → IsAscending l
      → first_value k (chosen f l) ≡ passed k (first_value k l)
  chosen-first_value [] k s = refl
  chosen-first_value (a ∷ l) k (g, s) = elim (Bool-cases (eq_bytes a.key k)) [
    | inl here ↦
        let at_a : a.key ≡ k = (eq_bytes_iff a.key k).0 here in
        subst (λ x. first_value x (chosen f (a ∷ l)) ≡ passed x (first_value x (a ∷ l))) at_a
          (at_head ((eq_bytes_iff a.key a.key).1 refl))
    | inr other ↦ rw other (behind other ∙ chosen-first_value l k s)
  ]
    where
      at_head :
          eq_bytes a.key a.key ≡ true
          → first_value a.key (chosen f (a ∷ l)) ≡ passed a.key (first_value a.key (a ∷ l))
      at_head e = elim (Bool-cases (f a)) [
        | inl keep ↦ rw (keep, e, keep) refl
        | inr refuse ↦
            rw (refuse, e, refuse)
              (absent a.key (chosen f l) (All-chosen (λ b. less a b ≡ true) l g))
      ]

      behind :
          eq_bytes a.key k ≡ false → first_value k (chosen f (a ∷ l)) ≡ first_value k (chosen f l)
      behind e = elim (Bool-cases (f a)) [
        | inl keep ↦ rw (keep, e) refl
        | inr refuse ↦ rw refuse refl
      ]

  new_set_filtered-chosen :
      (kvs : List KeyValue)
      → ((new_set_filtered kvs (some f)).set.equivalent ≡ chosen f (new_set kvs).equivalent)
        × Perm (new_set_filtered kvs (some f)).excluded (chosen refused (new_set kvs).equivalent)
  unfolding new_set_filtered new_set_from new_set
  new_set_filtered-chosen [] = (refl, Perm.rfl)
  new_set_filtered-chosen (a ∷ l) =
      let full : (suc (length l) == 0) ≡ false = ground arith in
      let k = sort_distinct (a ∷ l) in rw full (filter_set-chosen (drop k.position k.kvs))

  -- The attributes of a set built with a filter stand in the order of their keys. The value of a key is
  -- the last that the attributes given have for it, where the filter keeps the key with that value: else
  -- the key has no value, also where the filter keeps an earlier value. The excluded attributes are those
  -- of the set built without the filter that the filter refuses, in some order.
  pub new_set_filtered-values :
      (kvs : List KeyValue)
      → IsAscending (new_set_filtered kvs (some f)).set.equivalent
        × ((k : Bytes)
            → first_value k (new_set_filtered kvs (some f)).set.equivalent
              ≡ passed k (last_value k kvs))
        × Perm
            (new_set_filtered kvs (some f)).excluded
            (chosen (λ a. not (f a)) (new_set kvs).equivalent)
  new_set_filtered-values kvs =
      let (kept, excluded) = new_set_filtered-chosen kvs in
      let (ascending, values) = new_set-last_value kvs in
      let l = (new_set kvs).equivalent in
      (
        subst IsAscending (sym kept) (chosen-IsAscending l ascending),
        λ k. ap (first_value k) kept ∙ chosen-first_value l k ascending ∙ ap (passed k) (values k),
        excluded,
      )
