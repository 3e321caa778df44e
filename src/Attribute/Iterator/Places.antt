-- ===== src/Attribute/Iterator/Places.antt =====
-- The places of an iterator: what it still has to give, and what `advance` and `makeOne` leave.
use mathlib.Core.Path.{subst}
use opentelemetry_go.Prelude.{
  ℕ, zero, suc, ◌≡◌, refl, sym, ap, true, false, not, List, [], ◌∷◌, none, some, arith, ltb,
  if◌then◌else◌, length, drop, get_elem?,
}
use opentelemetry_go.Prelude.Int.{ℤ, pos}
use opentelemetry_go.Attribute.{KeyValue}
use opentelemetry_go.Attribute.Set.{Set, zero_key_value, set_length, get}
use opentelemetry_go.Attribute.Iterator.{Iterator, iter, attribute, OneIterator, advance, make_one}

-- What the fields of an iterator say about the list that it still has to give.
abbrev pub Shows : OneIterator → List KeyValue → Type 0
Shows oi [] = oi.done ≡ true
Shows oi (a ∷ l) = (oi.done ≡ false) × (oi.attr ≡ a)

-- The iterator still has to give the list.
pub record Ahead (oi : OneIterator) (l : List KeyValue) : Type 0 where
  pub i : ℕ
  pub idx_is : oi.iter.idx ≡ pos i
  pub left : drop i oi.iter.storage.equivalent ≡ l
  pub shows : Shows oi l

pub drop-more :
    (i : ℕ) (l : List KeyValue) (a : KeyValue) (m : List KeyValue)
    → drop i l ≡ a ∷ m
    → drop (suc i) l ≡ m
drop-more zero [] a m e = absurd (cc e)
drop-more zero (b ∷ l) a m e = cc e
drop-more (suc i) [] a m e = absurd (cc e)
drop-more (suc i) (b ∷ l) a m e = drop-more i l a m e

pub drop-nil : (i : ℕ) (l : List KeyValue) → drop i l ≡ [] → ltb i (length l) ≡ false
drop-nil zero [] e = ground arith
drop-nil zero (b ∷ l) e = absurd (cc e)
drop-nil (suc i) [] e = ground arith
drop-nil (suc i) (b ∷ l) e = ground (arith, drop-nil i l e)

pub drop-get :
    (i : ℕ) (l : List KeyValue) (a : KeyValue) (m : List KeyValue)
    → drop i l ≡ a ∷ m
    → (ltb i (length l) ≡ true) × (get_elem? l i ≡ some a)
drop-get zero [] a m e = absurd (cc e)
drop-get zero (b ∷ l) a m e = (ground arith, ap (λ x. get_elem? x 0) e)
drop-get (suc i) [] a m e = absurd (cc e)
drop-get (suc i) (b ∷ l) a m e = let (low, got) = drop-get i l a m e in (ground (arith, low), got)

-- An iterator that comes to a place.
abbrev landed : Set → KeyValue → ℕ → OneIterator
landed s attr i =
    let more = ltb i (set_length s) in
    let there : Iterator = record { storage = s; idx = pos i } in
    record { iter = there; done = not more; attr = if more then attribute there else attr }

landed-Shows :
    (s : Set) (attr : KeyValue) (i : ℕ) (l : List KeyValue)
    → drop i s.equivalent ≡ l
    → Shows (landed s attr i) l
unfolding get
landed-Shows s attr i [] e = ap not (drop-nil i s.equivalent e)
landed-Shows s attr i (a ∷ l) e =
    let (low, got) = drop-get i s.equivalent a l e in
    (ap not low, rw low (ap (λ o. elim o [ none ↦ zero_key_value | some kv ↦ kv ]) got))

pub make_one-Ahead : (s : Set) → Ahead (make_one (iter s)) s.equivalent
make_one-Ahead s = record {
  i = 0;
  idx_is = refl;
  left = refl;
  shows = landed-Shows s zero_key_value 0 s.equivalent refl;
}

pub advance-Ahead :
    (oi : OneIterator) (a : KeyValue) (l : List KeyValue) → Ahead oi (a ∷ l) → Ahead (advance oi) l
advance-Ahead oi a l ahead =
    let left = drop-more ahead.i oi.iter.storage.equivalent a l ahead.left in
    subst {A = ℤ}
      (λ z.
        Ahead
          (advance (record {
            iter = record { storage = oi.iter.storage; idx = z };
            done = oi.done;
            attr = oi.attr;
          }))
          l)
      (sym ahead.idx_is)
      (record {
        i = suc ahead.i;
        idx_is = refl;
        left = left;
        shows = landed-Shows oi.iter.storage oi.attr (suc ahead.i) l left;
      })
