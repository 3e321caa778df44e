-- ===== src/Trace/State/WellFormed.antt =====
-- The invariant that the comment on `TraceState` states, and that parsing establishes it.
use opentelemetry_go.Prelude.{
  ◌≤◌, ◌≡◌, ◌∙◌, false, inl, inr, Bool-cases, List, [], ◌∷◌, ◌++◌, arith, ◌==◌, Bytes, eq_bytes,
  eq_bytes_iff, length, All,
}
use opentelemetry_go.Trace.Errors.{>>=-eq-ok, ok}
use mathlib.Core.Path.{subst}
use opentelemetry_go.Text.{split}
use opentelemetry_go.Trace.State.{
  empty, list_delimiter, Member, TraceState, Progress, max_list_members, is_found, parse_member,
  add_member, parse_step, parse_members, parse_trace_state,
}
use opentelemetry_go.Trace.State.Members.{IsMember, parse_member-IsMember}

-- No member of the list has the key.
abbrev pub Fresh : Bytes → List Member → Type 0
Fresh k = All (λ m. eq_bytes k m.key ≡ false)

-- The keys of a list of members differ.
abbrev pub Distinct : List Member → Type 0
Distinct [] = Unit
Distinct (m ∷ ms) = Fresh m.key ms × Distinct ms

-- All members are valid, no two have one key, and there are 32 at most.
pub record IsWellFormed (ts : TraceState) : Type 0 where
  pub members : All IsMember ts.list
  pub distinct : Distinct ts.list
  pub few : length ts.list ≤ max_list_members

pub eq_bytes_symm : (a b : Bytes) → eq_bytes a b ≡ eq_bytes b a
eq_bytes_symm a b = ground (arith, eq_bytes_iff a b, eq_bytes_iff b a)

pub Fresh-snoc :
    (k : Bytes) (ms : List Member) (m : Member)
    → Fresh k ms
    → eq_bytes k m.key ≡ false
    → Fresh k (ms ++ (m ∷ []))
Fresh-snoc k [] m f h = (h, tt)
Fresh-snoc k (x ∷ ms) m (p, f) h = (p, Fresh-snoc k ms m f h)

Distinct-snoc :
    (ms : List Member) (m : Member) → Distinct ms → Fresh m.key ms → Distinct (ms ++ (m ∷ []))
Distinct-snoc [] m d f = (tt, tt)
Distinct-snoc (x ∷ ms) m (p, d) (h, f) =
    (Fresh-snoc x.key ms m p (eq_bytes_symm x.key m.key ∙ h), Distinct-snoc ms m d f)

All-snoc :
    (ms : List Member) (m : Member) → All IsMember ms → IsMember m → All IsMember (ms ++ (m ∷ []))
All-snoc [] m a h = (h, tt)
All-snoc (x ∷ ms) m (p, a) h = (p, All-snoc ms m a h)

-- What holds before each round of the loop: `found` holds the keys of the members.
record LoopInv (p : Progress) : Type 0 where
  valid : IsWellFormed (record { list = p.members })
  keys : (k : Bytes) → is_found k p.found ≡ false → Fresh k p.members

grow-LoopInv :
    (m : Member) (p : Progress)
    → IsMember m
    → LoopInv p
    → is_found m.key p.found ≡ false
    → length (p.members ++ (m ∷ [])) ≤ max_list_members
    → LoopInv (record { members = p.members ++ (m ∷ []); found = m.key ∷ p.found })
unfolding is_found
grow-LoopInv m p h inv new room = record {
  valid = record {
    members = All-snoc p.members m inv.valid.members h;
    distinct = Distinct-snoc p.members m inv.valid.distinct (inv.keys m.key new);
    few = room;
  };
  keys = λ k e. Fresh-snoc k p.members m (inv.keys k (ground arith)) (ground arith);
}

add_member-LoopInv :
    (m : Member) (p q : Progress) → IsMember m → LoopInv p → add_member m p ≡ ok q → LoopInv q
unfolding add_member
add_member-LoopInv m p q h inv e =
    let same : record { members = p.members ++ (m ∷ []); found = m.key ∷ p.found } ≡ q =
      ground arith in
    subst LoopInv same (grow-LoopInv m p h inv (ground arith) (ground arith))

parse_step-LoopInv : (s : Bytes) (p q : Progress) → LoopInv p → parse_step s p ≡ ok q → LoopInv q
unfolding parse_step
parse_step-LoopInv s p q inv e = elim (Bool-cases (length s == 0)) [
  | inl skip ↦ let same : p ≡ q = ground arith in subst LoopInv same inv
  | inr more ↦
      let (m, parsed, added) = >>=-eq-ok (parse_member s) (λ m. add_member m p) (rw more at e) in
      add_member-LoopInv m p q (parse_member-IsMember s m parsed) inv added
]

parse_members-LoopInv :
    (ss : List Bytes) (p q : Progress) → LoopInv p → parse_members ss p ≡ ok q → LoopInv q
unfolding parse_members
parse_members-LoopInv [] p q inv e = let same : p ≡ q = cc in subst LoopInv same inv
parse_members-LoopInv (s ∷ ss) p q inv e =
    let (r, first, later) = >>=-eq-ok (parse_step s p) (parse_members ss) e in
    parse_members-LoopInv ss r q (parse_step-LoopInv s p r inv first) later

abbrev pub start : Progress
start = record { members = []; found = [] }

start-LoopInv : LoopInv start
start-LoopInv = record { valid = omega arith; keys = λ k e. tt }

ok-injective : {t u : TraceState} → ok t ≡ ok u → t ≡ u
ok-injective h = cc

-- A trace state that `ParseTraceState` returns is well-formed.
pub parse_trace_state-IsWellFormed :
    (s : Bytes) (ts : TraceState) → parse_trace_state s ≡ ok ts → IsWellFormed ts
unfolding parse_trace_state
parse_trace_state-IsWellFormed s ts e = elim (Bool-cases (eq_bytes s [])) [
  | inl none_given ↦ let same : empty ≡ ts = ground arith in subst IsWellFormed same (omega arith)
  | inr given ↦
      let (p, parsed, built) =
        >>=-eq-ok (parse_members (split list_delimiter s) start)
          (λ p. ok (record { list = p.members })) (rw given at e) in
      let same : record { list = p.members } ≡ ts = ok-injective built in
      subst IsWellFormed same
        (parse_members-LoopInv (split list_delimiter s) start p start-LoopInv parsed).valid
]
