-- ===== src/SdkTrace/Provider.antt =====
-- sdk/trace/provider.go: the registered span processors of a `TracerProvider`. A processor is known
-- by a number; the result of its `Shutdown` is a parameter, `none` for no error. A processor may be
-- registered more than once, and each registration has a `sync.Once` of its own. The
-- provider has had a registration before: else the calls return at once.
pub mod Registration
use opentelemetry_go.Prelude.{
  ℕ, zero, suc, Bool, true, false, List, [], ◌∷◌, ◌++◌, Option, none, some, ◌==◌, if◌then◌else◌,
}

-- `spanProcessorState`, and whether its `sync.Once` has run
pub record ProcessorState : Type 0 where
  pub sp : ℕ
  pub once_done : Bool

-- The list of `spanProcessors`, and the calls of the processors' `Shutdown`, in order.
pub record Registry : Type 0 where
  pub span_processors : List ProcessorState
  pub shutdowns : List ℕ

-- `RegisterSpanProcessor`
unfoldable pub register : Registry → ℕ → Registry
register p s = record p {
  span_processors = p.span_processors ++ (record { sp = s; once_done = false } ∷ []);
}

-- The loop of `UnregisterSpanProcessor`: the last registration of the processor, with its place,
-- where `i` counts the registrations passed and `found` is the last one so far.
unfoldable pub find_last :
    ℕ → ℕ → List ProcessorState → Option (ProcessorState × ℕ) → Option (ProcessorState × ℕ)
find_last s i [] found = found
find_last s i (sps ∷ spss) found =
    find_last s (suc i) spss (if sps.sp == s then some (sps, i) else found)

-- `copy(spss[idx:], spss[idx+1:])` and the slice of all but the last
unfoldable pub remove_at : ℕ → List ProcessorState → List ProcessorState
remove_at idx [] = []
remove_at zero (sps ∷ spss) = spss
remove_at (suc idx) (sps ∷ spss) = sps ∷ remove_at idx spss

-- `stopOnce.state.Do` of `Shutdown`
unfoldable pub shut_once : ProcessorState → List ℕ → List ℕ
shut_once sps calls = if sps.once_done then calls else calls ++ (sps.sp ∷ [])

-- What follows the loop of `UnregisterSpanProcessor`; `idx` is 0 where nothing is found.
unregister_found : Registry → Option (ProcessorState × ℕ) → Registry
unfolding remove_at shut_once
unregister_found p none = record p { span_processors = remove_at 0 p.span_processors }
unregister_found p (some (sps, idx)) = record {
  span_processors = remove_at idx p.span_processors;
  shutdowns = shut_once sps p.shutdowns;
}

-- `UnregisterSpanProcessor`
unfoldable pub unregister : Registry → ℕ → Registry
unfolding unregister_found find_last
unregister p s = unregister_found p (find_last s 0 p.span_processors none)

-- The loop of `Shutdown`, for a context that is not done: the registrations with those run marked,
-- the calls, and the error that ends it.
unfoldable pub shutdown_loop :
    (ℕ → Option ℕ) → List ProcessorState → List ProcessorState × List ℕ × Option ℕ
shutdown_loop result [] = ([], [], none)
shutdown_loop result (sps ∷ spss) =
    let (marked, calls, error) = shutdown_loop result spss in
    let ran = record sps { once_done = true } in
    if sps.once_done then (sps ∷ marked, calls, error) else elim (result sps.sp) [
      | some e ↦ (ran ∷ spss, sps.sp ∷ [], some e)
      | none ↦ (ran ∷ marked, sps.sp ∷ calls, error)
    ]

-- `Shutdown`
unfoldable pub shutdown_all : (ℕ → Option ℕ) → Registry → Registry × Option ℕ
unfolding shutdown_loop
shutdown_all result p =
    let (marked, calls, error) = shutdown_loop result p.span_processors in
    (record { span_processors = marked; shutdowns = p.shutdowns ++ calls }, error)
