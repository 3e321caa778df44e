-- ===== src/Propagation/Baggage.antt =====
-- propagation/baggage.go: the header `baggage`.
use opentelemetry_go.Prelude.{
  ◌≡◌, refl, sym, ap, ◌∙◌, true, false, inl, inr, Bool-cases, List, [], ◌∷◌, none, some, ◌==◌,
  if◌then◌else◌, Bytes, codes, eq_bytes_refl, length,
}
use opentelemetry_go.Propagation.Carrier.{TextMapCarrier}
use opentelemetry_go.Baggage.{Parsed, failed, parsed}
use opentelemetry_go.Baggage.Map.{Items, Baggage, empty_baggage, baggage_string, parse}
use opentelemetry_go.Baggage.RoundTrip.{IsWellFormed, parse-baggage_string}
use opentelemetry_go.Baggage.Context.{
  BaggageState, BaggageContext, state_of, after_set, after_get, context_with_list,
  context_with_baggage, list_from_context, from_context,
}

abbrev pub baggage_header : Bytes
baggage_header = codes "baggage"

-- `Baggage.Fields`
abbrev pub baggage_fields : List Bytes
baggage_fields = baggage_header ∷ []

module _ {H G : Type 0} (run_set : H → BaggageContext H G → Items → BaggageContext H G)
    (run_get : G → BaggageContext H G → Items → Items) {C : Type 0}
    (carrier : TextMapCarrier C) where
  -- `Baggage.Inject`: the carrier after it
  unfoldable pub inject_baggage : BaggageContext H G → C → C
  inject_baggage ctx c =
      let b_str = baggage_string (from_context run_set run_get ctx) in
      if length b_str == 0 then c else carrier.set c baggage_header b_str

  -- The end of `Extract`: the context for what `Parse` returns.
  unfoldable pub take_over : BaggageContext H G → Parsed Baggage → BaggageContext H G
  take_over parent (failed why) = parent
  take_over parent (parsed bag) = context_with_baggage run_set run_get parent bag

  -- `Baggage.Extract`
  unfoldable pub extract_baggage : BaggageContext H G → C → BaggageContext H G
  unfolding take_over
  extract_baggage parent c =
      let b_str = carrier.get c baggage_header in
      if length b_str == 0 then parent else take_over parent (parse b_str)

-- A well-formed baggage with a member is not written as the empty string.
written :
    (b : Baggage)
    → IsWellFormed b
    → (length b.list == 0) ≡ false
    → (length (baggage_string b) == 0) ≡ false
unfolding parse
written b h full = elim (Bool-cases (length (baggage_string b) == 0)) [
  | inl blank ↦
      let read : parse (baggage_string b) ≡ parsed empty_baggage = rw blank refl in
      let same : parsed empty_baggage ≡ parsed b = sym read ∙ parse-baggage_string b h in
      absurd
        (cc (full, ap (λ r. elim r [ failed why ↦ true | parsed b ↦ length b.list == 0 ]) same))
  | inr some_left ↦ some_left
]

module _ {H G : Type 0} (run_set : H → BaggageContext H G → Items → BaggageContext H G)
    (run_get : G → BaggageContext H G → Items → Items) {C : Type 0}
    (carrier : TextMapCarrier C) where
  -- A receiver whose context has no hooks takes over the list.
  received :
      (parent : BaggageContext H G) (l : Items)
      → (state_of parent).set_hook ≡ none
      → (state_of parent).get_hook ≡ none
      → list_from_context run_set run_get (context_with_list run_set run_get parent l) ≡ l
  unfolding list_from_context context_with_list after_get after_set
  received parent l no_set no_get =
      let s : BaggageState H G = state_of parent in
      let ctx : BaggageContext H G = record {
        state = some (record { list = l; set_hook = s.set_hook; get_hook = s.get_hook });
      } in
      ap (λ o. list_from_context run_set run_get (after_set run_set run_get o ctx l)) no_set
      ∙ ap (λ o. after_get run_set run_get o ctx l) no_get

  -- Where the baggage of the sender's context is well-formed and has a member, and the receiver's context
  -- has no hooks: the context that `Extract` makes of the carrier that `Inject` has written to has the
  -- same baggage, whatever the carrier and the receiver's context had before.
  pub extract_baggage-inject_baggage :
      (sender receiver : BaggageContext H G) (c : C) (b : Baggage)
      → from_context run_set run_get sender ≡ b
      → IsWellFormed b
      → (length b.list == 0) ≡ false
      → (state_of receiver).set_hook ≡ none
      → (state_of receiver).get_hook ≡ none
      → from_context run_set run_get (
          extract_baggage run_set run_get carrier receiver
            (inject_baggage run_set run_get carrier sender c))
        ≡ b
  unfolding extract_baggage inject_baggage take_over
  extract_baggage-inject_baggage sender receiver c b sent h full no_set no_get =
      let text = baggage_string b in
      let there = written b h full in
      let sets : inject_baggage run_set run_get carrier sender c
          ≡ carrier.set c baggage_header text =
        ap
          (λ b.
            let s = baggage_string b in if length s == 0 then c else carrier.set c baggage_header s)
          sent
        ∙ rw there refl in
      let gets : carrier.get (carrier.set c baggage_header text) baggage_header ≡ text =
        carrier.get_set c baggage_header text baggage_header
        ∙ rw (eq_bytes_refl baggage_header) refl in
      let extracted : extract_baggage run_set run_get carrier receiver
            (carrier.set c baggage_header text)
          ≡ context_with_baggage run_set run_get receiver b =
        ap
          (λ s.
            if length s == 0
            then receiver
            else take_over run_set run_get carrier receiver (parse s))
          gets
        ∙ rw there (ap (take_over run_set run_get carrier receiver) (parse-baggage_string b h)) in
      ap (λ d. from_context run_set run_get (extract_baggage run_set run_get carrier receiver d))
        sets
      ∙ ap (from_context run_set run_get) extracted
      ∙ ap {A = Items} {B = Baggage} (λ l. record { list = l })
          (received receiver b.list no_set no_get)
