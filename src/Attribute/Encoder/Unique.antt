-- ===== src/Attribute/Encoder/Unique.antt =====
-- The default encoding tells sets of strings in UTF-8 apart.
use opentelemetry_go.Prelude.{
  ℕ, zero, suc, ◌<◌, ◌≡◌, refl, sym, ap, ◌∙◌, Bool, true, List, [], ◌∷◌, ◌++◌, append_assoc, none,
  some, arith, ltb, if◌then◌else◌, Bytes, length, drop, All,
}
use opentelemetry_go.Prelude.Int.{ℤ, pos, negsuc}
use opentelemetry_go.Text.Utf8.{IsUtf8}
use opentelemetry_go.Attribute.{Value, string, KeyValue}
use opentelemetry_go.Attribute.Set.{Set, zero_key_value, set_length, get}
use opentelemetry_go.Attribute.Iterator.{Iterator, next, attribute}
use opentelemetry_go.Attribute.Iterator.Places.{drop-nil, drop-get, drop-more}
use opentelemetry_go.Attribute.Encoder.{
  encode_value, encode_attribute, encode_loop, default_encode, encoded,
}
use opentelemetry_go.Attribute.Encoder.Escaped.{
  escaped, copy_and_escape-escaped, Strings, attribute_of, attributes_of, tail_text,
  tail_text-stops, tail_text_unique, pair_unique, filled,
}

-- The value is a string in UTF-8.
abbrev IsUtf8String : Value → Type 0
IsUtf8String (string s) = IsUtf8 s
IsUtf8String _ = ⊥

-- The key and the value are strings in UTF-8.
abbrev pub IsTextual : KeyValue → Type 0
IsTextual kv = IsUtf8 kv.key × IsUtf8String kv.value

abbrev InUtf8 : Bytes × Bytes → Type 0
InUtf8 p = IsUtf8 p.0 × IsUtf8 p.1

strings_of :
    (l : List KeyValue) → All IsTextual l → (p : Strings) × (l ≡ attributes_of p) × All InUtf8 p
strings_of [] h = ([], refl, tt)
strings_of (a ∷ l) ((k, v), hs) =
    let (p, rest, texts) = strings_of l hs in
    let (s, is, u) = string_of a.value v in
    (
      (a.key, s) ∷ p,
      ap {A = Value} {B = List KeyValue} (λ v. record { key = a.key; value = v } ∷ l) is
          ∙ ap (◌∷◌ (attribute_of (a.key, s))) rest,
      ((k, u), texts),
    )
  where
    string_of : (v : Value) → IsUtf8String v → (s : Bytes) × (v ≡ string s) × IsUtf8 s
    string_of (string s) h = (s, refl, h)
    string_of v h = absurd h

module _ (format : Value → Bytes) where
  -- A round of the loop.
  encode_loop-round :
      (fuel : ℕ) (s : Set) (i : ℕ) (z : ℤ)
      → next (record { storage = s; idx = z })
        ≡ (ltb i (set_length s), record { storage = s; idx = pos i })
      → encode_loop format (suc fuel) (record { storage = s; idx = z }) ≡ (
          if ltb i (set_length s)
          then encode_attribute format (pos i) (attribute (record { storage = s; idx = pos i }))
            ++ encode_loop format fuel (record { storage = s; idx = pos i })
          else [])
  unfolding encode_loop
  encode_loop-round fuel s i z comes =
      ap {A = Bool × Iterator} {B = Bytes}
        (λ r.
          let rest = encode_loop format fuel r.1 in
          if r.0 then encode_attribute format (r.1).idx (attribute r.1) ++ rest else [])
        comes

  encode_attribute-first :
      (p : Bytes × Bytes) (rest : Bytes)
      → InUtf8 p
      → encode_attribute format (pos 0) (attribute_of p) ++ rest
        ≡ escaped p.0 ++ (b'=' ∷ (escaped p.1 ++ rest))
  unfolding encode_value
  encode_attribute-first p rest (k, v) =
      rw (copy_and_escape-escaped k, copy_and_escape-escaped v)
        (append_assoc (escaped p.0) (b'=' ∷ escaped p.1) rest)

  encode_attribute-later :
      (i : ℕ) (p : Bytes × Bytes) (rest : Bytes)
      → InUtf8 p
      → encode_attribute format (pos (suc i)) (attribute_of p) ++ rest
        ≡ b',' ∷ (escaped p.0 ++ (b'=' ∷ (escaped p.1 ++ rest)))
  unfolding encode_value
  encode_attribute-later i p rest (k, v) =
      let positive : ltb 0 (suc i) ≡ true = ground arith in
      rw (positive, copy_and_escape-escaped k, copy_and_escape-escaped v)
        (ap (◌∷◌ (b',')) (append_assoc (escaped p.0) (b'=' ∷ escaped p.1) rest))

  -- A round that comes to an attribute.
  encode_loop-attribute :
      (fuel : ℕ) (s : Set) (i : ℕ) (z : ℤ) (p : Bytes × Bytes) (l : List KeyValue)
      → next (record { storage = s; idx = z })
        ≡ (ltb i (set_length s), record { storage = s; idx = pos i })
      → drop i s.equivalent ≡ attribute_of p ∷ l
      → encode_loop format (suc fuel) (record { storage = s; idx = z })
        ≡ encode_attribute format (pos i) (attribute_of p)
          ++ encode_loop format fuel (record { storage = s; idx = pos i })
  unfolding get
  encode_loop-attribute fuel s i z p l comes e =
      let (low, got) = drop-get i s.equivalent (attribute_of p) l e in
      let there : attribute (record { storage = s; idx = pos i }) ≡ attribute_of p =
        ap (λ o. elim o [ none ↦ zero_key_value | some kv ↦ kv ]) got in
      encode_loop-round fuel s i z comes
      ∙ rw low (
          ap
            (λ x.
              encode_attribute format (pos i) x
              ++ encode_loop format fuel (record { storage = s; idx = pos i }))
            there)

  -- The loop, behind the first attribute.
  encode_loop-tail :
      (fuel : ℕ) (s : Set) (i : ℕ) (l : Strings)
      → drop (suc i) s.equivalent ≡ attributes_of l
      → length (attributes_of l) < fuel
      → All InUtf8 l
      → encode_loop format fuel (record { storage = s; idx = pos i }) ≡ tail_text l
  encode_loop-tail zero s i l e h us = absurd (omega arith)
  encode_loop-tail (suc fuel) s i [] e h us =
      encode_loop-round fuel s (suc i) (pos i) refl ∙ rw (drop-nil (suc i) s.equivalent e) refl
  encode_loop-tail (suc fuel) s i (p ∷ l) e h (u, us) =
      let ih =
        encode_loop-tail fuel s (suc i) l
          (drop-more (suc i) s.equivalent (attribute_of p) (attributes_of l) e) (omega (arith, h))
          us in
      encode_loop-attribute fuel s (suc i) (pos i) p (attributes_of l) refl e
      ∙ encode_attribute-later i p
          (encode_loop format fuel (record { storage = s; idx = pos (suc i) })) u
      ∙ ap (λ r. b',' ∷ (escaped p.0 ++ (b'=' ∷ (escaped p.1 ++ r)))) ih

  -- The text of a set.
  abbrev text : Strings → Bytes
  text [] = []
  text (p ∷ l) = escaped p.0 ++ (b'=' ∷ (escaped p.1 ++ tail_text l))

  encoded-text :
      (s : Set) (l : Strings)
      → s.equivalent ≡ attributes_of l
      → All InUtf8 l
      → encoded format s ≡ text l
  unfolding default_encode
  encoded-text s [] e us =
      encode_loop-round (set_length s) s 0 (negsuc 0) refl ∙ rw (drop-nil 0 s.equivalent e) refl
  encoded-text s (p ∷ l) e (u, us) =
      let rest =
        encode_loop-tail (set_length s) s 0 l
          (drop-more 0 s.equivalent (attribute_of p) (attributes_of l) e)
          (omega (arith, ap (λ m. length m) e)) us in
      encode_loop-attribute (set_length s) s 0 (negsuc 0) p (attributes_of l) refl e
      ∙ encode_attribute-first p
          (encode_loop format (set_length s) (record { storage = s; idx = pos 0 })) u
      ∙ ap (λ r. escaped p.0 ++ (b'=' ∷ (escaped p.1 ++ r))) rest

  text_unique : (l m : Strings) → text l ≡ text m → l ≡ m
  text_unique [] [] e = refl
  text_unique [] (q ∷ m) e =
      absurd (filled (escaped q.0) (b'=') (escaped q.1 ++ tail_text m) (sym e))
  text_unique (p ∷ l) [] e = absurd (filled (escaped p.0) (b'=') (escaped p.1 ++ tail_text l) e)
  text_unique (p ∷ l) (q ∷ m) e =
      let (first, rest) =
        pair_unique p q (tail_text l) (tail_text m) (tail_text-stops l) (tail_text-stops m) e in
      ap (λ x. x ∷ l) first ∙ ap (◌∷◌ q) (tail_text_unique l m rest)

  -- Two sets in which all keys are valid UTF-8, and all values are strings that are valid UTF-8, are
  -- the same where the default encoder gives one text for both.
  pub encoded_unique :
      (s t : Set)
      → All IsTextual s.equivalent
      → All IsTextual t.equivalent
      → encoded format s ≡ encoded format t
      → s.equivalent ≡ t.equivalent
  encoded_unique s t h k e =
      let (l, s_is, us) = strings_of s.equivalent h in
      let (m, t_is, ut) = strings_of t.equivalent k in
      let texts = sym (encoded-text s l s_is us) ∙ e ∙ encoded-text t m t_is ut in
      s_is ∙ ap attributes_of (text_unique l m texts) ∙ sym t_is
