-- ===== src/Tests/Providers.antt =====
-- The span processors of a provider.
use opentelemetry_go.Prelude.{◌≡◌, refl, true, false, [], ◌∷◌, ◌++◌, none}
use opentelemetry_go.SdkTrace.Provider.{Registry, register, unregister, shutdown_all}
use opentelemetry_go.SdkTrace.Provider.Registration.{
  Unknown, pending, unregister-register, unregister-Unknown, shutdown_all-pending,
}

abbrev two_registered : Registry
two_registered = record {
  span_processors = record { sp = 1; once_done = false } ∷ record { sp = 2; once_done = true } ∷ [];
  shutdowns = 2 ∷ [];
}

others-Unknown : Unknown 7 (record { sp = 2; once_done = true } ∷ [])
others-Unknown = (refl, tt)

seven-Unknown : Unknown 7 two_registered.span_processors
seven-Unknown = (refl, others-Unknown)

unregister-register_example :
    unregister (register two_registered 1) 1 ≡ record two_registered { shutdowns = 2 ∷ 1 ∷ [] }
unregister-register_example = unregister-register two_registered 1

unregister-Unknown_example :
    unregister two_registered 7
    ≡ record two_registered { span_processors = record { sp = 2; once_done = true } ∷ [] }
unregister-Unknown_example =
    unregister-Unknown two_registered (record { sp = 1; once_done = false }) _ 7 refl seven-Unknown

shutdown_all-pending_example :
    ((shutdown_all (λ s. none) two_registered).0.shutdowns
      ≡ (2 ∷ []) ++ pending two_registered.span_processors)
    × (pending (shutdown_all (λ s. none) two_registered).0.span_processors ≡ [])
unfolding shutdown_all
shutdown_all-pending_example = shutdown_all-pending (λ s. none) two_registered refl
