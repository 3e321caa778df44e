-- ===== src/Attribute/Set/Equal.antt =====
-- When sets compare as equal.
use opentelemetry_go.Prelude.{
  ◌≡◌, ◌↔◌, refl, sym, ap, ◌∙◌, Bool, true, false, ◌&&◌, inl, inr, Bool-cases, List, [], ◌∷◌, some,
  arith, if◌then◌else◌, Bytes, eq_bytes, eq_bytes_iff, All,
}
use opentelemetry_go.Prelude.Int.{pos, negsuc}
use opentelemetry_go.Attribute.{
  Value, invalid, bool, int64, float64, string, bool_slice, int64_slice, float64_slice,
  string_slice, KeyValue,
}
use opentelemetry_go.Attribute.Lookup.{first_value, last_value}
use opentelemetry_go.Attribute.Order.{ltb_bytes, ltb_bytes_total}
use opentelemetry_go.Attribute.Set.{eq_bool, eq_int, eq_value, eq_arrays, equals, new_set}
use opentelemetry_go.Attribute.Set.Last.{
  IsAscending, absent, before_all, new_set-last_value, new_set-All,
}

-- The value is not a slice.
abbrev pub is_scalar : Value → Bool
is_scalar (bool_slice a) = false
is_scalar (int64_slice a) = false
is_scalar (float64_slice a) = false
is_scalar (string_slice a) = false
is_scalar _ = true

KeyValue-ext : (a b : KeyValue) → a.key ≡ b.key → a.value ≡ b.value → a ≡ b
KeyValue-ext a b p q =
    ap {A = Bytes} {B = KeyValue} (λ k. record { key = k; value = a.value }) p
    ∙ ap {A = Value} {B = KeyValue} (λ v. record { key = b.key; value = v }) q

eq_bytes_refl : (k : Bytes) → eq_bytes k k ≡ true
eq_bytes_refl k = (eq_bytes_iff k k).1 refl

has_first : (a : KeyValue) (l : List KeyValue) → first_value a.key (a ∷ l) ≡ some a.value
has_first a l = rw (eq_bytes_refl a.key) refl

-- The first keys of two ascending lists with the same values are not in order.
not_before :
    (a b : KeyValue) (l m : List KeyValue)
    → IsAscending (b ∷ m)
    → first_value a.key (a ∷ l) ≡ first_value a.key (b ∷ m)
    → ltb_bytes a.key b.key ≡ false
not_before a b l m (g, s) e = elim (Bool-cases (ltb_bytes a.key b.key)) [
  | inl lower ↦
      absurd (cc (e, has_first a l, absent a.key (b ∷ m) (lower, before_all a b m lower g)))
  | inr fine ↦ fine
]

-- Two ascending lists with the same values are the same list.
ascending_unique :
    (l m : List KeyValue)
    → IsAscending l
    → IsAscending m
    → ((k : Bytes) → first_value k l ≡ first_value k m)
    → l ≡ m
ascending_unique [] [] s t h = refl
ascending_unique [] (b ∷ m) s t h = absurd (cc (h b.key, has_first b m))
ascending_unique (a ∷ l) [] s t h = absurd (cc (h a.key, has_first a l))
ascending_unique (a ∷ l) (b ∷ m) (g, s) (g', t) h =
    let up = not_before a b l m (g', t) (h a.key) in
    let down = not_before b a m l (g, s) (sym (h b.key)) in
    let keys : a.key ≡ b.key = ltb_bytes_total a.key b.key up down in
    let values : some a.value ≡ some b.value =
      sym (has_first a l) ∙ h a.key ∙ ap (λ k. first_value k (b ∷ m)) keys ∙ has_first b m in
    let first = KeyValue-ext a b keys (cc values) in
    ap (λ x. x ∷ l) first ∙ ap (◌∷◌ b) (ascending_unique l m s t (rest keys))
  where
    rest : a.key ≡ b.key → (k : Bytes) → first_value k l ≡ first_value k m
    rest keys k = elim (Bool-cases (eq_bytes a.key k)) [
      | inl here ↦
          let at_a : a.key ≡ k = (eq_bytes_iff a.key k).0 here in
          ap (λ x. first_value x l) (sym at_a)
          ∙ absent a.key l g
          ∙ sym (ap (λ x. first_value x m) (sym at_a ∙ keys) ∙ absent b.key m g')
      | inr other ↦
          let other_b : eq_bytes b.key k ≡ false = ap (λ x. eq_bytes x k) (sym keys) ∙ other in
          let both : (if eq_bytes a.key k then some a.value else first_value k l)
              ≡ (if eq_bytes b.key k then some b.value else first_value k m) =
            h k in
          left other ∙ both ∙ sym (right other_b)
    ]
      where
        left : eq_bytes a.key k ≡ false → first_value k l ≡ first_value k (a ∷ l)
        left n = rw n refl

        right : eq_bytes b.key k ≡ false → first_value k m ≡ first_value k (b ∷ m)
        right n = rw n refl

and_left : (a b : Bool) → (a && b) ≡ true → a ≡ true
and_left a b h = ground arith

and_right : (a b : Bool) → (a && b) ≡ true → b ≡ true
and_right a b h = ground arith

module _ (same_slice : Value → Value → Bool) where
  eq_value_sound : (v w : Value) → is_scalar v ≡ true → eq_value same_slice v w ≡ true → v ≡ w
  unfolding eq_value eq_bool eq_int
  eq_value_sound invalid invalid h e = refl
  eq_value_sound (bool true) (bool true) h e = refl
  eq_value_sound (bool false) (bool false) h e = refl
  eq_value_sound (int64 (pos m)) (int64 (pos n)) h e = ap (λ x. int64 (pos x)) (ground (arith, e))
  eq_value_sound (int64 (negsuc m)) (int64 (negsuc n)) h e =
      ap (λ x. int64 (negsuc x)) (ground (arith, e))
  eq_value_sound (float64 a) (float64 b) h e = ap float64 (ground (arith, e))
  eq_value_sound (string a) (string b) h e = ap string ((eq_bytes_iff a b).0 e)
  eq_value_sound v w h e = absurd cc

  eq_value_refl : (v : Value) → is_scalar v ≡ true → eq_value same_slice v v ≡ true
  unfolding eq_value eq_bool eq_int
  eq_value_refl invalid h = refl
  eq_value_refl (bool true) h = refl
  eq_value_refl (bool false) h = refl
  eq_value_refl (int64 (pos m)) h = ground arith
  eq_value_refl (int64 (negsuc m)) h = ground arith
  eq_value_refl (float64 a) h = ground arith
  eq_value_refl (string a) h = eq_bytes_refl a
  eq_value_refl v h = absurd cc

  eq_arrays_sound :
      (l m : List KeyValue)
      → All (λ a. is_scalar a.value ≡ true) l
      → eq_arrays same_slice l m ≡ true
      → l ≡ m
  unfolding eq_arrays
  eq_arrays_sound [] [] s e = refl
  eq_arrays_sound [] (b ∷ m) s e = absurd (cc e)
  eq_arrays_sound (a ∷ l) [] s e = absurd (cc e)
  eq_arrays_sound (a ∷ l) (b ∷ m) (h, s) e =
      let k = eq_bytes a.key b.key in
      let v = eq_value same_slice a.value b.value in
      let first = and_left (k && v) (eq_arrays same_slice l m) e in
      ap (λ x. x ∷ l)
        (KeyValue-ext a b ((eq_bytes_iff a.key b.key).0 (and_left k v first))
          (eq_value_sound a.value b.value h (and_right k v first)))
      ∙ ap (◌∷◌ b) (eq_arrays_sound l m s (and_right (k && v) (eq_arrays same_slice l m) e))

  eq_arrays_refl :
      (l : List KeyValue) → All (λ a. is_scalar a.value ≡ true) l → eq_arrays same_slice l l ≡ true
  unfolding eq_arrays
  eq_arrays_refl [] s = refl
  eq_arrays_refl (a ∷ l) (h, s) =
      rw (eq_bytes_refl a.key, eq_value_refl a.value h) (eq_arrays_refl l s)

  -- The sets of two lists compare as equal, where no value of the first list is a slice, just when every
  -- key has the same last value in both lists.
  pub equals-new_set :
      (kvs others : List KeyValue)
      → All (λ a. is_scalar a.value ≡ true) kvs
      → equals same_slice (new_set kvs) (new_set others) ≡ true
        ↔ ((k : Bytes) → last_value k kvs ≡ last_value k others)
  unfolding equals
  equals-new_set kvs others scalar =
      let (up, values) = new_set-last_value kvs in
      let (up', values') = new_set-last_value others in
      let kept = new_set-All (λ a. is_scalar a.value ≡ true) kvs scalar in
      (
        λ e k.
            sym (values k)
            ∙ ap (first_value k)
                (eq_arrays_sound (new_set kvs).equivalent (new_set others).equivalent kept e)
            ∙ values' k,
        λ h.
            let same =
              ascending_unique (new_set kvs).equivalent (new_set others).equivalent up up'
                (λ k. values k ∙ h k ∙ sym (values' k)) in
            ap (eq_arrays same_slice (new_set kvs).equivalent) (sym same)
            ∙ eq_arrays_refl (new_set kvs).equivalent kept,
      )
