-- ===== src/SdkTrace/EvictedQueue/Last.antt =====
-- The queue holds the last values added, as many as its capacity, and counts the others.
use mathlib.Core.Path.{subst}
use opentelemetry_go.Prelude.{
  ℕ, zero, suc, ◌+◌, ◌-◌, ◌≤◌, ◌<◌, ◌≡◌, refl, sym, ap, ◌∙◌, inl, inr, Bool-cases, List, [], ◌∷◌,
  ◌++◌, arith, ◌==◌, length, length-append, take, drop, length-take, append_assoc, append-nil,
}
use opentelemetry_go.Prelude.Int.{ℤ, pos, negsuc}
use opentelemetry_go.Text.{copy}
use opentelemetry_go.SdkTrace.EvictedQueue.{
  EvictedQueue, new_evicted_queue, drop_first, add, add_all,
}

module _ {ℓ} {A : Type ℓ} where
  take-all : (xs ys : List A) → take (length xs) (xs ++ ys) ≡ xs
  take-all [] ys = refl
  take-all (x ∷ xs) ys = ap (◌∷◌ x) (take-all xs ys)

  drop-all : (n : ℕ) (xs : List A) → length xs ≤ n → drop n xs ≡ []
  drop-all zero [] h = refl
  drop-all zero (x ∷ xs) h = absurd (omega arith)
  drop-all (suc n) [] h = refl
  drop-all (suc n) (x ∷ xs) h = drop-all n xs (omega arith)

  take-exact : (n : ℕ) (xs : List A) → length xs ≡ n → take n xs ≡ xs
  take-exact n xs e = rw (sym e) (ap (take (length xs)) (sym (append-nil xs)) ∙ take-all xs [])

  copy-fits : (dst src : List A) → length src ≡ length dst → copy dst src ≡ src
  unfolding copy
  copy-fits dst src e =
      rw (take-exact (length dst) src e)
        (rw (drop-all (length src) dst (omega arith)) (append-nil src))

  -- The move by one place leaves all but the first.
  drop_first-cons : (x : A) (xs : List A) → drop_first (x ∷ xs) ≡ xs
  unfolding drop_first
  drop_first-cons x xs =
      let last : suc (length xs) - 1 ≡ length xs = omega arith in
      let fits : length xs ≡ length (take (length xs) (x ∷ xs)) =
        omega (arith, length-take (length xs) (x ∷ xs)) in
      rw last (rw (copy-fits (take (length xs) (x ∷ xs)) xs fits) (take-all xs _))

  abbrev holding : List A → ℕ → ℕ → EvictedQueue A
  holding q n d = record { queue = q; capacity = pos n; dropped_count = d }

  -- The last `n` of the values `xs` are queued, and the others counted on top of `d`.
  abbrev pub IsLast : ℕ → List A → ℕ → EvictedQueue A → Type ℓ
  IsLast n xs d eq = (eq.queue ≡ drop (length xs - n) xs) × (eq.dropped_count ≡ d + (length xs - n))

  add-room :
      (q : List A) (n d : ℕ) (x : A)
      → length q ≤ n
      → add (holding q (suc n) d) x ≡ holding (q ++ (x ∷ [])) (suc n) d
  unfolding add
  add-room q n d x h = ground arith

  add-full :
      (y : A) (ys : List A) (n d : ℕ) (x : A)
      → length ys ≡ n
      → add (holding (y ∷ ys) (suc n) d) x ≡ holding (ys ++ (x ∷ [])) (suc n) (d + 1)
  unfolding add
  add-full y ys n d x h = ground (arith, drop_first-cons y ys)

  IsLast-shift :
      (y : A) (zs : List A) (n d : ℕ) (eq : EvictedQueue A)
      → n < length zs
      → IsLast (suc n) zs (d + 1) eq
      → IsLast (suc n) (y ∷ zs) d eq
  IsLast-shift y zs n d eq l (q, c) =
      let e : suc (length zs) - suc n ≡ suc (length zs - suc n) = omega arith in
      (rw e q, omega arith)

  add_all-IsLast :
      (xs q : List A) (n d : ℕ)
      → length q ≤ suc n
      → IsLast (suc n) (q ++ xs) d (add_all (holding q (suc n) d) xs)
  unfolding add_all
  add_all-IsLast [] q n d l =
      let e : length (q ++ []) - suc n ≡ 0 = omega (arith, length-append q []) in
      (rw e (sym (append-nil q)), omega arith)
  add_all-IsLast (x ∷ xs) q n d l = elim (Bool-cases (length q == suc n)) [
    | inr room ↦
        subst (λ eq. IsLast (suc n) (q ++ (x ∷ xs)) d (add_all eq xs))
          (sym (add-room q n d x (ground arith)))
          (regroup q d
            (add_all-IsLast xs (q ++ (x ∷ [])) n d (ground (arith, length-append q (x ∷ [])))))
    | inl full ↦ at_capacity q (ground arith) (add_all-IsLast xs)
  ]
    where
      regroup :
          (p : List A) (k : ℕ)
          → IsLast
              (suc n)
              ((p ++ (x ∷ [])) ++ xs)
              k
              (add_all (holding (p ++ (x ∷ [])) (suc n) d) xs)
          → IsLast (suc n) (p ++ (x ∷ xs)) k (add_all (holding (p ++ (x ∷ [])) (suc n) d) xs)
      regroup p k h =
          subst (λ l. IsLast (suc n) l k (add_all (holding (p ++ (x ∷ [])) (suc n) d) xs))
            (append_assoc p (x ∷ []) xs) h

      at_capacity :
          (p : List A)
          → length p ≡ suc n
          → ((q : List A) (n d : ℕ)
              → length q ≤ suc n
              → IsLast (suc n) (q ++ xs) d (add_all (holding q (suc n) d) xs))
          → IsLast (suc n) (p ++ (x ∷ xs)) d (add_all (add (holding p (suc n) d) x) xs)
      at_capacity [] e ih = absurd (omega arith)
      at_capacity (y ∷ ys) e ih =
          let kept : length (ys ++ (x ∷ [])) ≤ suc n = omega (arith, length-append ys (x ∷ [])) in
          subst (λ eq. IsLast (suc n) ((y ∷ ys) ++ (x ∷ xs)) d (add_all eq xs))
            (sym (add-full y ys n d x (omega arith)))
            (IsLast-shift y (ys ++ (x ∷ xs)) n d
              (add_all (holding (ys ++ (x ∷ [])) (suc n) (d + 1)) xs)
              (omega (arith, length-append ys (x ∷ xs)))
              (subst
                (λ l.
                  IsLast (suc n) l (d + 1) (add_all (holding (ys ++ (x ∷ [])) (suc n) (d + 1)) xs))
                (append_assoc ys (x ∷ []) xs) (ih (ys ++ (x ∷ [])) n (d + 1) kept)))

  -- What a queue holds, and has dropped, after it was given the values of a list.
  abbrev pub Evicted : ℤ → List A → EvictedQueue A → Type ℓ
  Evicted (pos n) xs eq = IsLast n xs 0 eq
  Evicted (negsuc n) xs eq = (eq.queue ≡ xs) × (eq.dropped_count ≡ 0)

  add_all-zero : (xs : List A) (d : ℕ) → add_all (holding [] 0 d) xs ≡ holding [] 0 (d + length xs)
  unfolding add_all add
  add_all-zero [] d = ap (holding [] 0) (omega arith)
  add_all-zero (x ∷ xs) d = add_all-zero xs (d + 1) ∙ ap (holding [] 0) (omega arith)

  add_all-unlimited :
      (xs q : List A) (n : ℕ)
      → add_all (record { queue = q; capacity = negsuc n; dropped_count = 0 }) xs
        ≡ record { queue = q ++ xs; capacity = negsuc n; dropped_count = 0 }
  unfolding add_all add
  add_all-unlimited [] q n = rw append-nil
  add_all-unlimited (x ∷ xs) q n = add_all-unlimited xs (q ++ (x ∷ [])) n ∙ rw append_assoc

  -- A new queue of capacity `n` that is given the values of a list holds the last `n` of them in
  -- order, and has counted the others as dropped. With a negative capacity it holds all.
  pub add_all-Evicted :
      (capacity : ℤ) (xs : List A) → Evicted capacity xs (add_all (new_evicted_queue capacity) xs)
  unfolding new_evicted_queue
  add_all-Evicted (pos zero) xs =
      let gone : drop (length xs - 0) xs ≡ [] = drop-all _ xs (omega arith) in
      rw (add_all-zero xs 0) (sym gone, omega arith)
  add_all-Evicted (pos (suc n)) xs = add_all-IsLast xs [] n 0 (omega arith)
  add_all-Evicted (negsuc n) xs = rw add_all-unlimited (refl, refl)
