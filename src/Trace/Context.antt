-- ===== src/Trace/Context.antt =====
-- trace/context.go: the current span of a context. Of the values of a `context.Context` the model
-- keeps that span, and of the span what `SpanContext` returns: `none` where the context is nil or
-- holds no span.
use opentelemetry_go.Prelude.{Option, none, some, true}
use opentelemetry_go.Trace.SpanContext.{SpanContext, zero_span_context, with_remote}

pub record Context : Type 0 where
  pub current_span : Option SpanContext

-- `ContextWithSpan` and `ContextWithSpanContext`
abbrev pub context_with_span_context : Context → SpanContext → Context
context_with_span_context parent sc = record parent { current_span = some sc }

-- `ContextWithRemoteSpanContext`
abbrev pub context_with_remote_span_context : Context → SpanContext → Context
context_with_remote_span_context parent rsc =
    context_with_span_context parent (with_remote rsc true)

span_context_of : Option SpanContext → SpanContext
span_context_of none = zero_span_context
span_context_of (some sc) = sc

-- `SpanContextFromContext`; a context without a span gives that of `noopSpan{}`
unfoldable pub span_context_from_context : Context → SpanContext
unfolding span_context_of
span_context_from_context ctx = span_context_of ctx.current_span
