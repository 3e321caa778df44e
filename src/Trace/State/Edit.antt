-- ===== src/Trace/State/Edit.antt =====
-- `Insert` and `Delete` against a description by lists, and what `Get` finds behind them.
use opentelemetry_go.Prelude.{
  ℕ, suc, zero, ◌+◌, ◌≤◌, ◌<◌, ◌⊎◌, ◌≡◌, refl, sym, ap, ◌∙◌, true, not, inl, inr, Bool-cases, List,
  [], ◌∷◌, ◌++◌, none, some, arith, leb, if◌then◌else◌, Bytes, eq_bytes, eq_bytes_iff, length-take,
  length, take, drop, append-nil, All,
}
use mathlib.Core.Path.{subst}
use opentelemetry_go.Text.{copy}
use opentelemetry_go.Trace.Errors.{err_invalid_key, err_invalid_value, ok}
use opentelemetry_go.Trace.State.{
  is_key, is_value, move_right, make_room, Member, TraceState, new_member, get, get_from, delete,
  delete_from, insert_member, insert,
}
use opentelemetry_go.Trace.State.Members.{IsMember}
use opentelemetry_go.Trace.State.WellFormed.{Fresh, Distinct, IsWellFormed, eq_bytes_symm}

-- The members with another key, in order.
abbrev pub without : Bytes → List Member → List Member
without key [] = []
without key (m ∷ ms) = let rest = without key ms in if eq_bytes m.key key then rest else m ∷ rest

without-Fresh : (key : Bytes) (ms : List Member) → Fresh key ms → without key ms ≡ ms
without-Fresh key [] f = refl
without-Fresh key (m ∷ ms) (h, f) = ground (arith, eq_bytes_symm m.key key, without-Fresh key ms f)

-- With distinct keys the first member with the key is the only one.
delete_from-without :
    (key : Bytes) (ms : List Member) → Distinct ms → delete_from key ms ≡ without key ms
unfolding delete_from
delete_from-without key [] d = refl
delete_from-without key (m ∷ ms) (f, d) = elim (Bool-cases (eq_bytes m.key key)) [
  | inl same ↦
      rw same
        (sym (without-Fresh key ms (subst (λ k. Fresh k ms) ((eq_bytes_iff m.key key).0 same) f)))
  | inr other ↦ rw other (ap (◌∷◌ m) (delete_from-without key ms d))
]

module _ (key : Bytes) where
  without-Fresh_self : (ms : List Member) → Fresh key (without key ms)
  without-Fresh_self [] = tt
  without-Fresh_self (m ∷ ms) = ground (arith, eq_bytes_symm m.key key, without-Fresh_self ms)

  Fresh-without : (k : Bytes) (ms : List Member) → Fresh k ms → Fresh k (without key ms)
  Fresh-without k [] f = tt
  Fresh-without k (m ∷ ms) (h, f) = ground (arith, Fresh-without k ms f)

  Distinct-without : (ms : List Member) → Distinct ms → Distinct (without key ms)
  Distinct-without [] d = tt
  Distinct-without (m ∷ ms) (f, d) = ground (arith, Fresh-without m.key ms f, Distinct-without ms d)

  All-without : (ms : List Member) → All IsMember ms → All IsMember (without key ms)
  All-without [] v = tt
  All-without (m ∷ ms) (h, v) = ground (arith, All-without ms v)

  length-without : (ms : List Member) → length (without key ms) ≤ length ms
  length-without [] = omega arith
  length-without (m ∷ ms) = ground (arith, length-without ms)

drop-past : (xs : List Member) → drop (suc (length xs)) xs ≡ []
drop-past [] = refl
drop-past (x ∷ xs) = drop-past xs

move_right-cons :
    (m x : Member) (xs : List Member) → move_right m (x ∷ xs) ≡ m ∷ take (length xs) (x ∷ xs)
unfolding move_right copy
move_right-cons m x xs = rw drop-past (rw append-nil)

take-snoc :
    (x b : Member) (xs : List Member)
    → take (length (xs ++ (b ∷ []))) (x ∷ (xs ++ (b ∷ []))) ≡ x ∷ xs
take-snoc x b [] = refl
take-snoc x b (y ∷ ys) = ap (◌∷◌ x) (take-snoc y b ys)

take-long : (n : ℕ) (xs : List Member) → length xs ≤ n → take n xs ≡ xs
take-long zero [] h = refl
take-long zero (x ∷ xs) h = absurd (omega arith)
take-long (suc n) [] h = refl
take-long (suc n) (x ∷ xs) h = ap (◌∷◌ x) (take-long n xs (omega arith))

move_right-snoc : (m b : Member) (xs : List Member) → move_right m (xs ++ (b ∷ [])) ≡ m ∷ xs
move_right-snoc m b [] = move_right-cons m b []
move_right-snoc m b (x ∷ xs) = move_right-cons m x (xs ++ (b ∷ [])) ∙ ap (◌∷◌ m) (take-snoc x b xs)

-- The members behind the new one, but for a member too many at the end.
move_right-make_room :
    (m : Member) (xs : List Member)
    → length xs ≤ 32
    → move_right m (make_room xs) ≡ take 32 (m ∷ xs)
unfolding make_room
move_right-make_room m xs h = elim (Bool-cases (leb (length xs + 1) 32)) [
  | inl room ↦ rw room (move_right-snoc m _ xs ∙ ap (◌∷◌ m) (sym (take-long 31 xs (ground arith))))
  | inr full ↦ rw full (at_limit xs (ground arith))
]
  where
    at_limit : (ys : List Member) → length ys ≡ 32 → move_right m ys ≡ take 32 (m ∷ ys)
    at_limit [] e = absurd (omega arith)
    at_limit (y ∷ ys) e = move_right-cons m y ys ∙ (let l : length ys ≡ 31 = omega arith in rw l)

abbrev pub inserted : TraceState → Member → TraceState
inserted ts m = record { list = take 32 (m ∷ without m.key ts.list) }

insert_member-ok :
    (ts : TraceState) (m : Member)
    → IsWellFormed ts
    → insert_member ts m.key (ok m) ≡ (inserted ts m, none)
unfolding insert_member delete
insert_member-ok ts m w =
    let few : length (without m.key ts.list) ≤ 32 =
      omega (arith, length-without m.key ts.list, w.few) in
    rw (delete_from-without m.key ts.list w.distinct)
      (ap (λ l. (record { list = l }, none)) (move_right-make_room m (without m.key ts.list) few))

-- `Insert` on a well-formed trace state: an invalid key or value leaves it and gives the error; else
-- the new member stands first, before the members with another key, and the last of 33 is dropped.
pub insert_lem :
    (ts : TraceState) (key value : Bytes)
    → IsWellFormed ts
    → insert ts key value ≡ (
        if not (is_key key)
        then (ts, some err_invalid_key)
        else if not (is_value value)
        then (ts, some err_invalid_value)
        else (inserted ts (record { key = key; value = value }), none))
unfolding insert
insert_lem ts key value w = elim (Bool-cases (is_key key)) [
  | inr bad ↦ unfold new_member in rw bad
  | inl key_ok ↦ elim (Bool-cases (is_value value)) [
    | inr bad ↦ unfold new_member in rw (key_ok, bad)
    | inl value_ok ↦
        let made : new_member key value ≡ ok (record { key = key; value = value }) =
          unfold new_member in rw (key_ok, value_ok) in
        rw (made, key_ok, value_ok) (insert_member-ok ts (record { key = key; value = value }) w)
  ]
]

All-take : (n : ℕ) (ms : List Member) → All IsMember ms → All IsMember (take n ms)
All-take zero ms v = tt
All-take (suc n) [] v = tt
All-take (suc n) (m ∷ ms) (h, v) = (h, All-take n ms v)

Fresh-take : (n : ℕ) (k : Bytes) (ms : List Member) → Fresh k ms → Fresh k (take n ms)
Fresh-take zero k ms f = tt
Fresh-take (suc n) k [] f = tt
Fresh-take (suc n) k (m ∷ ms) (h, f) = (h, Fresh-take n k ms f)

Distinct-take : (n : ℕ) (ms : List Member) → Distinct ms → Distinct (take n ms)
Distinct-take zero ms d = tt
Distinct-take (suc n) [] d = tt
Distinct-take (suc n) (m ∷ ms) (f, d) = (Fresh-take n m.key ms f, Distinct-take n ms d)

inserted-IsWellFormed :
    (ts : TraceState) (m : Member) → IsWellFormed ts → IsMember m → IsWellFormed (inserted ts m)
inserted-IsWellFormed ts m w h = record {
  members = (h, All-take 31 _ (All-without m.key ts.list w.members));
  distinct = (
    Fresh-take 31 m.key _ (without-Fresh_self m.key ts.list),
    Distinct-take 31 _ (Distinct-without m.key ts.list w.distinct),
  );
  few = omega (arith, length-take 31 (without m.key ts.list));
}

-- `Insert` keeps a trace state well-formed, whether it succeeds or not.
pub insert-IsWellFormed :
    (ts : TraceState) (key value : Bytes) → IsWellFormed ts → IsWellFormed (insert ts key value).0
insert-IsWellFormed ts key value w =
    rw (insert_lem ts key value w) (elim (Bool-cases (is_key key)) [
      | inr bad ↦ rw bad w
      | inl key_ok ↦ elim (Bool-cases (is_value value)) [
        | inr bad ↦ rw (key_ok, bad) w
        | inl value_ok ↦
            rw (key_ok, value_ok)
              (inserted-IsWellFormed ts _ w (record { key_ok = key_ok; value_ok = value_ok }))
      ]
    ])

get_from-without :
    (key j : Bytes) (ms : List Member)
    → get_from j (without key ms) ≡ (if eq_bytes key j then [] else get_from j ms)
unfolding get_from
get_from-without key j [] = ground arith
get_from-without key j (m ∷ ms) = ground (
  arith,
  get_from-without key j ms,
  eq_bytes_iff m.key key,
  eq_bytes_iff m.key j,
  eq_bytes_iff key j,
)

-- Behind `Delete`, `Get` finds nothing under the key, and what it found before under any other.
-- The rest is well-formed.
pub get-delete :
    (ts : TraceState) (key : Bytes)
    → IsWellFormed ts
    → IsWellFormed (delete ts key)
      × ((j : Bytes) → get (delete ts key) j ≡ (if eq_bytes key j then [] else get ts j))
unfolding delete get
get-delete ts key w = rw (delete_from-without key ts.list w.distinct) (
  record {
    members = All-without key ts.list w.members;
    distinct = Distinct-without key ts.list w.distinct;
    few = omega (arith, length-without key ts.list, w.few);
  },
  λ j. get_from-without key j ts.list,
)

insert_valid :
    (ts : TraceState) (key value : Bytes)
    → IsWellFormed ts
    → is_key key ≡ true
    → is_value value ≡ true
    → insert ts key value ≡ (inserted ts (record { key = key; value = value }), none)
insert_valid ts key value w k v = insert_lem ts key value w ∙ rw (k, v)

-- Behind an `Insert` of a valid member `Get` finds its value under its key, and under another key
-- what it found before if there is room for one more beside the members with another key than the
-- inserted one.
pub get-insert :
    (ts : TraceState) (key value j : Bytes)
    → IsWellFormed ts
    → is_key key ≡ true
    → is_value value ≡ true
    → (key ≡ j) ⊎ (length (without key ts.list) < 32)
    → get (insert ts key value).0 j ≡ (if eq_bytes key j then value else get ts j)
unfolding get get_from
get-insert ts key value j w k v (inl same) =
    rw (insert_valid ts key value w k v, (eq_bytes_iff key j).1 same) refl
get-insert ts key value j w k v (inr room) = rw (insert_valid ts key value w k v) (
    rw (take-long 31 (without key ts.list) (omega (arith, room)))
      (ground (arith, get_from-without key j ts.list)))
