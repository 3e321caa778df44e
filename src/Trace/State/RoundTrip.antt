-- ===== src/Trace/State/RoundTrip.antt =====
-- `ParseTraceState` reads back what `TraceState.String` prints.
use opentelemetry_go.Prelude.{
  ℕ, ◌+◌, ◌≤◌, ◌≡◌, refl, sym, ap, ◌∙◌, false, List, [], ◌∷◌, ◌++◌, arith, ◌==◌, map, append_assoc,
  append-nil, Bytes, eq_bytes, length, length-append, All,
}
use opentelemetry_go.Text.{join}
use opentelemetry_go.Text.Split.{Lacks, split-join}
use opentelemetry_go.Trace.Errors.{ok}
use opentelemetry_go.Trace.State.{
  Member, TraceState, Progress, is_found, member_string, add_member, parse_step, parse_members,
  parse_trace_state, to_string,
}
use opentelemetry_go.Trace.State.Members.{
  IsMember, parse_member-member_string, member_string-Lacks-comma,
}
use opentelemetry_go.Trace.State.WellFormed.{Fresh, Distinct, IsWellFormed, eq_bytes_symm, start}

-- No key of the members has been met.
abbrev Unmet : List Bytes → List Member → Type 0
Unmet found = All (λ m. is_found m.key found ≡ false)

Unmet-cons :
    (k : Bytes) (found : List Bytes) (ms : List Member)
    → Fresh k ms
    → Unmet found ms
    → Unmet (k ∷ found) ms
unfolding is_found
Unmet-cons k found [] f u = tt
Unmet-cons k found (m ∷ ms) (p, f) (h, u) =
    (rw (sym (eq_bytes_symm k m.key) ∙ p) h, Unmet-cons k found ms f u)

member_string-length : (m : Member) → length (member_string m) == 0 ≡ false
unfolding member_string
member_string-length m = ground (arith, length-append m.key (b'=' ∷ m.value))

abbrev grown : Progress → Member → Progress
grown p m = record { members = p.members ++ (m ∷ []); found = m.key ∷ p.found }

parse_step-member :
    (m : Member) (p : Progress)
    → IsMember m
    → is_found m.key p.found ≡ false
    → length p.members + 1 ≤ 32
    → parse_step (member_string m) p ≡ ok (grown p m)
unfolding parse_step
parse_step-member m p v u l = rw (member_string-length m) (
    rw (parse_member-member_string m v)
      (unfold add_member in ground (arith, length-append p.members (m ∷ []))))

parse_members-map :
    (ms : List Member) (p : Progress)
    → All IsMember ms
    → Distinct ms
    → Unmet p.found ms
    → length p.members + length ms ≤ 32
    → (q : Progress) × (parse_members (map member_string ms) p ≡ ok q)
      × (q.members ≡ p.members ++ ms)
unfolding parse_members
parse_members-map [] p v d u l = (p, refl, sym (append-nil p.members))
parse_members-map (m ∷ ms) p (h, v) (f, d) (n, u) l =
    let (q, e, s) =
      parse_members-map ms (grown p m) v d (Unmet-cons m.key p.found ms f u)
        (omega (arith, length-append p.members (m ∷ []))) in
    (q, rw (parse_step-member m p h n (omega arith)) e, s ∙ append_assoc p.members (m ∷ []) ms)

strings-lack-comma : (ms : List Member) → All IsMember ms → All (Lacks b',') (map member_string ms)
strings-lack-comma [] v = tt
strings-lack-comma (m ∷ ms) (h, v) = (member_string-Lacks-comma m h, strings-lack-comma ms v)

Unmet-nothing : (ms : List Member) → Unmet [] ms
unfolding is_found
Unmet-nothing [] = tt
Unmet-nothing (m ∷ ms) = (refl, Unmet-nothing ms)

-- The text of a list with a member is not empty.
join-nonempty :
    (c : ℕ) (w : Bytes) (ws : List Bytes) → eq_bytes (join b',' ((c ∷ w) ∷ ws)) [] ≡ false
unfolding join eq_bytes
join-nonempty c w [] = refl
join-nonempty c w (v ∷ ws) = refl

join-member :
    (k v : Bytes) (ws : List Bytes) → eq_bytes (join b',' ((k ++ (b'=' ∷ v)) ∷ ws)) [] ≡ false
join-member [] v ws = join-nonempty b'=' v ws
join-member (c ∷ k) v ws = join-nonempty c (k ++ (b'=' ∷ v)) ws

to_string-cons :
    (m : Member) (ms : List Member) → eq_bytes (join b',' (map member_string (m ∷ ms))) [] ≡ false
unfolding member_string
to_string-cons m ms = join-member m.key m.value (map member_string ms)

-- Parsing the text of a well-formed trace state gives that trace state, with no error.
pub parse_trace_state-to_string :
    (ts : TraceState) → IsWellFormed ts → parse_trace_state (to_string ts) ≡ ok ts
unfolding parse_trace_state to_string
parse_trace_state-to_string ts w = from_list ts.list w.members w.distinct w.few
  where
    from_list :
        (ms : List Member)
        → All IsMember ms
        → Distinct ms
        → length ms ≤ 32
        → parse_trace_state (to_string (record { list = ms })) ≡ ok (record { list = ms })
    from_list [] v d l = unfold eq_bytes join in refl
    from_list (m ∷ ms) v d l =
        let (q, e, s) =
          parse_members-map (m ∷ ms) start v d (Unmet-nothing (m ∷ ms)) (omega (arith, l)) in
        rw (to_string-cons m ms) (
          rw
            (split-join b',' (member_string m) (map member_string ms)
              (strings-lack-comma (m ∷ ms) v))
            (rw e (ap (λ x. ok (record { list = x })) s)))
