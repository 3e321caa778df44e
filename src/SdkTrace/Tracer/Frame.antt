-- ===== src/SdkTrace/Tracer/Frame.antt =====
-- The parts of a span that `addLink` leaves as they are.
use opentelemetry_go.Prelude.{◌≡◌, refl, ap, ◌∙◌, not, ◌||◌, inl, inr, Bool-cases, List, [], ◌∷◌}
use opentelemetry_go.Attribute.{KeyValue}
use opentelemetry_go.Trace.SpanContext.{SpanContext, is_valid}
use opentelemetry_go.SdkTrace.EvictedQueue.{EvictedQueue}
use opentelemetry_go.SdkTrace.Span.{Link, RecordingSpan, is_recording}
use opentelemetry_go.SdkTrace.Span.Methods.{add_link}
use opentelemetry_go.SdkTrace.Tracer.{add_links}

-- The spans that differ at most in the links.
pub record SameButLinks (s t : RecordingSpan) : Type 0 where
  pub links : EvictedQueue Link
  pub same : t ≡ record s { links = links }

add_link-SameButLinks :
    (s : RecordingSpan) (sc : SpanContext) (attrs : List KeyValue)
    → SameButLinks s (add_link s sc attrs)
unfolding add_link
add_link-SameButLinks s sc attrs = elim (Bool-cases (not (is_recording s) || not (is_valid sc))) [
  | inl refused ↦ rw refused (record { links = _; same = refl })
  | inr added ↦ rw added (record { links = _; same = refl })
]

pub add_links-SameButLinks :
    (links : List (SpanContext × List KeyValue)) (s : RecordingSpan)
    → SameButLinks s (add_links s links)
unfolding add_links
add_links-SameButLinks [] s = record { links = _; same = refl }
add_links-SameButLinks ((sc, attrs) ∷ links) s =
    let first = add_link-SameButLinks s sc attrs in
    let rest = add_links-SameButLinks links (add_link s sc attrs) in
    record {
      links = rest.links;
      same =
          rest.same
          ∙ ap {A = RecordingSpan} {B = RecordingSpan} (λ t. record t { links = rest.links })
              first.same;
    }
