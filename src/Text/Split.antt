-- ===== src/Text/Split.antt =====
-- `split` undoes `join` where no part holds the separator, and `cut` finds the first separator.
use opentelemetry_go.Prelude.{
  Bool-cases, inl, inr, Option, none, ℕ, ◌≡◌, refl, ap, ◌∙◌, true, not, List, [], ◌∷◌, ◌++◌, some,
  none, arith, ◌==◌, Bytes, all, All,
}
use opentelemetry_go.Text.{push_before, split, join, cut, push_before}

-- No byte of the string is `sep`.
abbrev pub Lacks : ℕ → Bytes → Type 0
Lacks sep w = all (λ c. not (c == sep)) w ≡ true

split-Lacks : (sep : ℕ) (w : Bytes) → Lacks sep w → split sep w ≡ w ∷ []
unfolding split
split-Lacks sep [] h = refl
split-Lacks sep (c ∷ w) h = ground (arith, split-Lacks sep w)

split-append : (sep : ℕ) (w s : Bytes) → Lacks sep w → split sep (w ++ (sep ∷ s)) ≡ w ∷ split sep s
unfolding split
split-append sep [] s h = ground arith
split-append sep (c ∷ w) s h = ground (arith, split-append sep w s)

pub split-join :
    (sep : ℕ) (w : Bytes) (ws : List Bytes)
    → All (Lacks sep) (w ∷ ws)
    → split sep (join sep (w ∷ ws)) ≡ w ∷ ws
unfolding join
split-join sep w [] (h, _) = split-Lacks sep w h
split-join sep w (v ∷ ws) (h, hs) =
    split-append sep w (join sep (v ∷ ws)) h ∙ ap (◌∷◌ w) (split-join sep v ws hs)

pub cut-append : (sep : ℕ) (w s : Bytes) → Lacks sep w → cut sep (w ++ (sep ∷ s)) ≡ some (w, s)
unfolding cut
cut-append sep [] s h = ground arith
cut-append sep (c ∷ w) s h = ground (arith, cut-append sep w s)

push_before-eq-some :
    (c : ℕ) (o : Option (Bytes × Bytes)) {a b : Bytes}
    → push_before c o ≡ some (a, b)
    → (x : Bytes) × (o ≡ some (x, b)) × (a ≡ c ∷ x)
unfolding push_before
push_before-eq-some c none h = cc
push_before-eq-some c (some (x, y)) h = (x, ground arith, ground arith)

-- What `cut` finds is the string itself.
pub cut-eq-some : (sep : ℕ) (s : Bytes) {a b : Bytes} → cut sep s ≡ some (a, b) → s ≡ a ++ (sep ∷ b)
unfolding cut
cut-eq-some sep [] h = cc
cut-eq-some sep (c ∷ cs) h = elim (Bool-cases (c == sep)) [
  | inl e ↦ ground arith
  | inr e ↦
      let (x, found, starts) = push_before-eq-some c (cut sep cs) (rw e at h) in
      cc (starts, cut-eq-some sep cs found)
]

-- Where there is no separator, nothing is found.
pub cut-Lacks : (sep : ℕ) (s : Bytes) → Lacks sep s → cut sep s ≡ none
unfolding cut push_before
cut-Lacks sep [] h = refl
cut-Lacks sep (c ∷ s) h = ground (arith, cut-Lacks sep s)
