-- ===== src/Tests/Resources.antt =====
-- Resources from the environment.
use opentelemetry_go.Prelude.{
  ◌≡◌, refl, false, [], ◌∷◌, if◌then◌else◌, Bytes, codes, eq_bytes, some,
}
use opentelemetry_go.Text.Space.{trim_space}
use opentelemetry_go.Attribute.{string}
use opentelemetry_go.Resource.{Resource}
use opentelemetry_go.Resource.Merge.{value_of}
use opentelemetry_go.Resource.Env.{construct_ot_resources, detect_from_env}
use opentelemetry_go.Resource.Env.ServiceName.{detect_from_env-service_name}

abbrev blank : Resource
blank = record { attrs = record { equivalent = [] }; schema_url = [] }

abbrev variable : Bytes
variable = codes " b = 2 ,service.name=x,,a="

env_invalid : (let m = detect_from_env blank variable [] in m.value.invalid) ≡ [] ∷ []
unfolding detect_from_env trim_space opentelemetry_go.Text.Space.leading_space
    opentelemetry_go.Text.Space.trailing_space opentelemetry_go.Text.split opentelemetry_go.Text.cut
env_invalid = refl

detect_from_env-service_name_example :
    (let m = detect_from_env blank variable (codes " y ") in
      (m.value.conflict ≡ false)
      × ((k : Bytes)
          → value_of m.empty m.value.resource k ≡ (
              if eq_bytes (codes "service.name") k
              then some (string (trim_space (codes " y ")))
              else value_of blank (construct_ot_resources (trim_space variable)).0 k)))
unfolding trim_space opentelemetry_go.Text.Space.leading_space
    opentelemetry_go.Text.Space.trailing_space
detect_from_env-service_name_example =
    detect_from_env-service_name blank refl variable (codes " y ") refl
