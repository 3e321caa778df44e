-- ===== src/Baggage/Context.antt =====
-- internal/baggage/context.go and baggage/context.go: the baggage of a context. Of the values of a
-- `context.Context` the model keeps the `baggageState`; a hook is a function of the program that uses
-- the package, so that the hooks and what a call of one does are parameters.
use opentelemetry_go.Prelude.{[], Option, none, some}
use opentelemetry_go.Baggage.Map.{Items, Baggage}

pub record BaggageState (H G : Type 0) : Type 0 where
  pub list : Items
  pub set_hook : Option H
  pub get_hook : Option G

-- `ctx.Value(baggageKey)`
pub record BaggageContext (H G : Type 0) : Type 0 where
  pub state : Option (BaggageState H G)

-- The zero `baggageState`, with a nil list.
abbrev pub zero_state : {H G : Type 0} → BaggageState H G
zero_state = record { list = []; set_hook = none; get_hook = none }

-- `var s baggageState; if v, ok := parent.Value(baggageKey).(baggageState); ok { s = v }`
abbrev pub state_of : {H G : Type 0} → BaggageContext H G → BaggageState H G
state_of ctx = elim ctx.state [ none ↦ zero_state | some s ↦ s ]

module _ {H G : Type 0} where
  -- `ContextWithSetHook` and `ContextWithGetHook`
  abbrev pub context_with_set_hook : BaggageContext H G → Option H → BaggageContext H G
  context_with_set_hook parent hook =
      let s : BaggageState H G = state_of parent in
      record { state = some (record { list = s.list; set_hook = hook; get_hook = s.get_hook }) }

  abbrev pub context_with_get_hook : BaggageContext H G → Option G → BaggageContext H G
  context_with_get_hook parent hook =
      let s : BaggageState H G = state_of parent in
      record { state = some (record { list = s.list; set_hook = s.set_hook; get_hook = hook }) }

module _ {H G : Type 0} (run_set : H → BaggageContext H G → Items → BaggageContext H G)
    (run_get : G → BaggageContext H G → Items → Items) where
  -- `if s.setHook != nil { ctx = s.setHook(ctx, list) }`
  unfoldable pub after_set : Option H → BaggageContext H G → Items → BaggageContext H G
  after_set none ctx list = ctx
  after_set (some hook) ctx list = run_set hook ctx list

  -- `if v.getHook != nil { return v.getHook(ctx, v.list) }; return v.list`
  unfoldable pub after_get : Option G → BaggageContext H G → Items → Items
  after_get none ctx list = list
  after_get (some hook) ctx list = run_get hook ctx list

  -- `ContextWithList`, and `ContextWithBaggage`
  unfoldable pub context_with_list : BaggageContext H G → Items → BaggageContext H G
  unfolding after_set
  context_with_list parent list =
      let s : BaggageState H G = state_of parent in
      let ctx : BaggageContext H G = record {
        state = some (record { list = list; set_hook = s.set_hook; get_hook = s.get_hook });
      } in
      after_set s.set_hook ctx list

  abbrev pub context_with_baggage : BaggageContext H G → Baggage → BaggageContext H G
  context_with_baggage parent b = context_with_list parent b.list

  -- `ContextWithoutBaggage`
  abbrev pub context_without_baggage : BaggageContext H G → BaggageContext H G
  context_without_baggage parent = context_with_list parent []

  -- `ListFromContext`, and `FromContext`
  unfoldable pub list_from_context : BaggageContext H G → Items
  unfolding after_get
  list_from_context ctx = elim ctx.state [ none ↦ [] | some v ↦ after_get v.get_hook ctx v.list ]

  abbrev pub from_context : BaggageContext H G → Baggage
  from_context ctx = record { list = list_from_context ctx }
