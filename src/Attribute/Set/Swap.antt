-- ===== src/Attribute/Set/Swap.antt =====
-- How the loops over a slice move what they keep to its end.
use opentelemetry_go.Prelude.{
  ℕ, suc, ◌+◌, ◌-◌, ◌≡◌, refl, ap, ◌∙◌, List, [], ◌∷◌, ◌++◌, arith, length, set,
}
use mathlib.Core.List.{Perm}
use mathlib.Core.List.Perm
use opentelemetry_go.Attribute.{KeyValue}
use opentelemetry_go.Attribute.Set.{Kept, at, swap}

-- The first list, backwards, before the second.
abbrev pub onto : List KeyValue → List KeyValue → List KeyValue
onto [] l = l
onto (x ∷ front) l = onto front (x ∷ l)

pub length-onto : (front l : List KeyValue) → length (onto front l) ≡ length front + length l
length-onto [] l = omega arith
length-onto (x ∷ front) l = omega (arith, length-onto front (x ∷ l))

pub at-onto : (front l : List KeyValue) (i : ℕ) → at (onto front l) (length front + i) ≡ at l i
at-onto [] l i = ap (at l) (omega arith)
at-onto (x ∷ front) l i = ap (at (onto front (x ∷ l))) (omega arith) ∙ at-onto front (x ∷ l) (suc i)

set-onto :
    (front l : List KeyValue) (i : ℕ) (v : KeyValue)
    → set (onto front l) (length front + i) v ≡ onto front (set l i v)
set-onto [] l i v = ap (λ j. set l j v) (omega arith)
set-onto (x ∷ front) l i v =
    ap (λ j. set (onto front (x ∷ l)) j v) (omega arith) ∙ set-onto front (x ∷ l) (suc i) v

swap-onto :
    (front l : List KeyValue) (i j : ℕ)
    → swap (length front + i) (length front + j) (onto front l) ≡ onto front (swap i j l)
unfolding swap
swap-onto front l i j =
    ap
      (λ v.
        set (set (onto front l) (length front + i) v) (length front + j)
          (at (onto front l) (length front + i)))
      (at-onto front l j)
    ∙ ap (λ v. set (set (onto front l) (length front + i) (at l j)) (length front + j) v)
        (at-onto front l i)
    ∙ ap (λ m. set m (length front + j) (at l i)) (set-onto front l i (at l j))
    ∙ set-onto front (set l i (at l j)) j (at l i)

-- The last of a list that begins with `d`, and what stands before it.
last_of : KeyValue → List KeyValue → KeyValue
last_of d [] = d
last_of d (e ∷ ds) = last_of e ds

before_last : KeyValue → List KeyValue → List KeyValue
before_last d [] = []
before_last d (e ∷ ds) = d ∷ before_last e ds

length-before_last : (d : KeyValue) (ds : List KeyValue) → length (before_last d ds) ≡ length ds
unfolding before_last
length-before_last d [] = refl
length-before_last d (e ∷ ds) = ap suc (length-before_last e ds)

before_last-perm :
    (d : KeyValue) (ds : List KeyValue) → Perm (last_of d ds ∷ before_last d ds) (d ∷ ds)
unfolding before_last last_of
before_last-perm d [] = Perm.rfl
before_last-perm d (e ∷ ds) =
    Perm.trans (Perm.swap d (last_of e ds) (before_last e ds)) (Perm.cons d (before_last-perm e ds))

at-last : (d : KeyValue) (ds r : List KeyValue) → at (d ∷ ds ++ r) (length ds) ≡ last_of d ds
unfolding last_of
at-last d [] r = refl
at-last d (e ∷ ds) r = at-last e ds r

set-last :
    (d : KeyValue) (ds r : List KeyValue) (x : KeyValue)
    → set (d ∷ ds ++ r) (length ds) x ≡ before_last d ds ++ (x ∷ r)
unfolding before_last
set-last d [] r x = refl
set-last d (e ∷ ds) r x = ap (◌∷◌ d) (set-last e ds r x)

-- What a move leaves where `ds` stood.
pub record Moved (x : KeyValue) (ds r kvs : List KeyValue) : Type 0 where
  pub others : List KeyValue
  pub long : length others ≡ length ds
  pub same : Perm others ds
  pub kvs_is : kvs ≡ others ++ (x ∷ r)

move : (x : KeyValue) (ds r : List KeyValue) → Moved x ds r (swap 0 (length ds) (x ∷ ds ++ r))
unfolding swap
move x [] r = record { others = []; long = refl; same = Perm.rfl; kvs_is = refl }
move x (d ∷ ds) r = record {
  others = last_of d ds ∷ before_last d ds;
  long = ap suc (length-before_last d ds);
  same = before_last-perm d ds;
  kvs_is =
      ap (λ l. l ∷ set (d ∷ ds ++ r) (length ds) x) (at-last d ds r)
      ∙ ap (◌∷◌ (last_of d ds)) (set-last d ds r x);
}

-- The swap with the place before the end part puts `x` in front of that part.
pub swap-moved :
    (front : List KeyValue) (x : KeyValue) (ds r : List KeyValue)
    → (others : List KeyValue) × (length others ≡ length ds)
      × Perm others ds
      × (swap (length front) (length front + length ds) (onto (x ∷ front) (ds ++ r))
          ≡ onto front (others ++ (x ∷ r)))
swap-moved front x ds r =
    let m = move x ds r in
    (
      m.others,
      m.long,
      m.same,
      ap (λ i. swap i (length front + length ds) (onto front (x ∷ ds ++ r))) (omega arith)
          ∙ swap-onto front (x ∷ ds ++ r) 0 (length ds)
          ∙ ap (onto front) m.kvs_is,
    )

pub at-front :
    (front : List KeyValue) (x : KeyValue) (l : List KeyValue)
    → at (onto (x ∷ front) l) (length front) ≡ x
at-front front x l = ap (at (onto front (x ∷ l))) (omega arith) ∙ at-onto front (x ∷ l) 0

at-append :
    (ds : List KeyValue) (r : KeyValue) (l : List KeyValue) → at (ds ++ (r ∷ l)) (length ds) ≡ r
at-append [] r l = refl
at-append (d ∷ ds) r l = at-append ds r l

pub at-behind :
    (front ds : List KeyValue) (r : KeyValue) (l : List KeyValue)
    → at (onto front (ds ++ (r ∷ l))) (length front + length ds) ≡ r
at-behind front ds r l = at-onto front (ds ++ (r ∷ l)) (length ds) ∙ at-append ds r l

-- A loop in its middle: what is still to be seen, backwards, what was dropped, and what is kept.
abbrev pub state : List KeyValue → List KeyValue → List KeyValue → Kept
state front dropped kept = record {
  kvs = onto front (dropped ++ kept);
  position = length front + length dropped;
}

-- An attribute is dropped where it stands.
pub state-drop :
    (x : KeyValue) (front dropped kept : List KeyValue)
    → state (x ∷ front) dropped kept ≡ state front (x ∷ dropped) kept
state-drop x front dropped kept =
    ap {A = ℕ} {B = Kept} (λ p. record { kvs = onto front (x ∷ dropped ++ kept); position = p })
      (omega arith)

-- An attribute is kept by a swap with the last one that was dropped.
pub state-keep :
    (x : KeyValue) (front dropped kept : List KeyValue)
    → (others : List KeyValue) × Perm others dropped
      × (record {
        kvs =
            swap
              (length front)
              (length (x ∷ front) + length dropped - 1)
              (onto (x ∷ front) (dropped ++ kept));
        position = length (x ∷ front) + length dropped - 1;
      }
          ≡ state front others (x ∷ kept))
state-keep x front dropped kept =
    let (others, long, same, swapped) = swap-moved front x dropped kept in
    (
      others,
      same,
      ap {A = ℕ} {B = Kept}
            (λ p. record {
              kvs = swap (length front) p (onto (x ∷ front) (dropped ++ kept));
              position = p;
            })
            (omega arith)
          ∙ ap {A = List KeyValue} {B = Kept}
              (λ l. record { kvs = l; position = length front + length dropped }) swapped
          ∙ ap {A = ℕ} {B = Kept}
              (λ p. record { kvs = onto front (others ++ (x ∷ kept)); position = p })
              (omega (arith, long)),
    )
