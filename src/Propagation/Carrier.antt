-- ===== src/Propagation/Carrier.antt =====
-- propagation/propagation.go: carriers. A propagator sees a carrier through `TextMapCarrier`; the law
-- is what a propagator relies on. `MapCarrier` is the implementation of the source that is modelled;
-- `HeaderCarrier` hands its keys to net/http, which brings them into a canonical form: it does not
-- satisfy the law for keys that differ in case only.
use opentelemetry_go.Prelude.{
  ◌≡◌, refl, List, [], ◌∷◌, arith, if◌then◌else◌, Bytes, eq_bytes, eq_bytes_iff,
}

-- `TextMapCarrier`, for the states `C` of a carrier
pub record TextMapCarrier (C : Type 0) : Type 0 where
  pub get : C → Bytes → Bytes
  pub set : C → Bytes → Bytes → C
  pub get_set : (c : C) (k v j : Bytes) → get (set c k v) j ≡ (if eq_bytes k j then v else get c j)

-- `MapCarrier`: a Go map of strings
abbrev pub MapCarrier : Type 0
MapCarrier = List (Bytes × Bytes)

-- `MapCarrier.Get`: the empty string for a missing key
unfoldable pub map_get : MapCarrier → Bytes → Bytes
map_get [] key = []
map_get ((k, v) ∷ c) key = if eq_bytes k key then v else map_get c key

-- `MapCarrier.Set`
unfoldable pub map_set : MapCarrier → Bytes → Bytes → MapCarrier
map_set [] key value = (key, value) ∷ []
map_set ((k, v) ∷ c) key value =
    if eq_bytes k key then (k, value) ∷ c else (k, v) ∷ map_set c key value

pub map_get-map_set :
    (c : MapCarrier) (k v j : Bytes)
    → map_get (map_set c k v) j ≡ (if eq_bytes k j then v else map_get c j)
unfolding map_get map_set
map_get-map_set [] k v j = refl
map_get-map_set ((i, w) ∷ c) k v j =
    ground (arith, map_get-map_set c k v j, eq_bytes_iff i k, eq_bytes_iff i j, eq_bytes_iff k j)

abbrev pub map_carrier : TextMapCarrier MapCarrier
map_carrier = record { get = map_get; set = map_set; get_set = map_get-map_set }
