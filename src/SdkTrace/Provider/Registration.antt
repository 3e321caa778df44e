-- ===== src/SdkTrace/Provider/Registration.antt =====
-- What registering and unregistering a span processor does to the others.
use opentelemetry_go.Prelude.{
  ℕ, suc, ◌+◌, ◌≡◌, refl, ap, ◌∙◌, false, inl, inr, Bool-cases, Option-cases, List, [], ◌∷◌, ◌++◌,
  Option, none, some, arith, ◌==◌, if◌then◌else◌, length, All,
}
use opentelemetry_go.SdkTrace.Provider.{
  ProcessorState, Registry, register, find_last, remove_at, shut_once, unregister_found, unregister,
  shutdown_loop, shutdown_all,
}

-- No registration is of the processor.
abbrev pub Unknown : ℕ → List ProcessorState → Type 0
Unknown s = All (λ sps. (sps.sp == s) ≡ false)

find_last-Unknown :
    (s i : ℕ) (spss : List ProcessorState) (found : Option (ProcessorState × ℕ))
    → Unknown s spss
    → find_last s i spss found ≡ found
unfolding find_last
find_last-Unknown s i [] found u = refl
find_last-Unknown s i (sps ∷ spss) found (other, u) =
    rw other (find_last-Unknown s (suc i) spss found u)

-- A fresh registration at the end is the one found.
find_last-snoc :
    (s i : ℕ) (spss : List ProcessorState) (found : Option (ProcessorState × ℕ))
    (new : ProcessorState)
    → new.sp ≡ s
    → find_last s i (spss ++ (new ∷ [])) found ≡ some (new, i + length spss)
unfolding find_last
find_last-snoc s i [] found new e = ground arith
find_last-snoc s i (sps ∷ spss) found new e =
    find_last-snoc s (suc i) spss (if sps.sp == s then some (sps, i) else found) new e
    ∙ ap (λ k. some (new, k)) (omega arith)

remove_at-snoc :
    (spss : List ProcessorState) (new : ProcessorState)
    → remove_at (length spss) (spss ++ (new ∷ [])) ≡ spss
unfolding remove_at
remove_at-snoc [] new = refl
remove_at-snoc (sps ∷ spss) new = ap (◌∷◌ sps) (remove_at-snoc spss new)

-- A processor that is registered and then unregistered is shut down once, and the others, which may
-- include earlier registrations of it, are as before.
pub unregister-register :
    (p : Registry) (s : ℕ)
    → unregister (register p s) s ≡ record p { shutdowns = p.shutdowns ++ (s ∷ []) }
unfolding unregister register unregister_found shut_once
unregister-register p s =
    let new : ProcessorState = record { sp = s; once_done = false } in
    let found : find_last s 0 (p.span_processors ++ (new ∷ [])) none
        ≡ some (new, length p.span_processors) =
      find_last-snoc s 0 p.span_processors none new refl ∙ ap (λ k. some (new, k)) (omega arith) in
    ap (unregister_found (register p s)) found
    ∙ ap (λ l. record p { span_processors = l; shutdowns = p.shutdowns ++ (s ∷ []) })
        (remove_at-snoc p.span_processors new)

-- To unregister a processor that is not registered removes the first registration, of another
-- processor, and shuts nothing down.
pub unregister-Unknown :
    (p : Registry) (first : ProcessorState) (others : List ProcessorState) (s : ℕ)
    → p.span_processors ≡ first ∷ others
    → Unknown s p.span_processors
    → unregister p s ≡ record p { span_processors = others }
unfolding unregister unregister_found remove_at
unregister-Unknown p first others s e u =
    ap (unregister_found p) (find_last-Unknown s 0 p.span_processors none u)
    ∙ ap (λ l. record p { span_processors = remove_at 0 l }) e

-- The processors whose registration is not shut down yet.
abbrev pub pending : List ProcessorState → List ℕ
pending [] = []
pending (sps ∷ spss) = if sps.once_done then pending spss else sps.sp ∷ pending spss

shutdown_loop-pending :
    (result : ℕ → Option ℕ) (spss : List ProcessorState)
    → (shutdown_loop result spss).2 ≡ none
    → ((shutdown_loop result spss).1 ≡ pending spss) × (pending (shutdown_loop result spss).0 ≡ [])
unfolding shutdown_loop
shutdown_loop-pending result [] h = (refl, refl)
shutdown_loop-pending result (sps ∷ spss) h = elim (Bool-cases sps.once_done) [
  | inl done ↦ ground (arith, shutdown_loop-pending result spss)
  | inr fresh ↦ elim (Option-cases (result sps.sp)) [
    | inl fine ↦ ground (arith, shutdown_loop-pending result spss)
    | inr (e, failed) ↦ ground arith
  ]
]

-- A `Shutdown` that returns no error calls the `Shutdown` of the processors that are not shut down
-- yet, in the order of their registration, and leaves none to be called by another `Shutdown`.
pub shutdown_all-pending :
    (result : ℕ → Option ℕ) (p : Registry)
    → (shutdown_all result p).1 ≡ none
    → ((shutdown_all result p).0.shutdowns ≡ p.shutdowns ++ pending p.span_processors)
      × (pending (shutdown_all result p).0.span_processors ≡ [])
unfolding shutdown_all
shutdown_all-pending result p h =
    let (calls, over) = shutdown_loop-pending result p.span_processors h in
    (ap (λ l. p.shutdowns ++ l) calls, over)
