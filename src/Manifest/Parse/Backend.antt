-- ===== src/Manifest/Parse/Backend.antt =====
-- The backend of a manifest that is read is in a place that was checked.
use secretov.Prelude.{◌≡◌, subst, true, none, some, Option, [], arith}
use secretov.Prelude.Result.{ok, ok_inj}
use secretov.Prelude.Text.{Text, is_empty}
use secretov.Manifest.Cloud.{
  BackendType, local, aws, gcp, is_gcp_project, is_known_aws_region, require_aws_region,
  require_gcp_project,
}
use secretov.Manifest.Parse.{
  BackendConfig, require_location, parse_location, located, parse_backend,
}
use secretov.Manifest.Yaml.{Yaml}

-- Where a backend of a type may be: no location, a known region, or a project id.
abbrev pub IsPlaced : BackendType → Text → Type 0
IsPlaced local location = location ≡ []
IsPlaced aws location = is_known_aws_region location ≡ true
IsPlaced gcp location = is_gcp_project location ≡ true

-- A location of its own, if there is one.
abbrev pub IsPlacedIf : BackendType → Option Text → Type 0
IsPlacedIf type none = Unit
IsPlacedIf local (some location) = ⊥
IsPlacedIf aws (some location) = IsPlaced aws location
IsPlacedIf gcp (some location) = IsPlaced gcp location

module _ (y : Yaml) where
  pub parse_location_lem :
      (node : y.Node) (type : BackendType) (path where_ : Text) {location : Option Text}
      → parse_location y node type path where_ ≡ ok location
      → IsPlacedIf type location
  unfolding parse_location require_location require_aws_region require_gcp_project is_empty
  parse_location_lem node local path where_ {location = none} h = tt
  parse_location_lem node local path where_ {location = some v} h = ground arith
  parse_location_lem node aws path where_ {location = none} h = tt
  parse_location_lem node aws path where_ {location = some v} h = ground arith
  parse_location_lem node gcp path where_ {location = none} h = tt
  parse_location_lem node gcp path where_ {location = some v} h = ground arith

  located_lem :
      (type : BackendType) (location : Option Text) (path : Text) {backend : BackendConfig}
      → IsPlacedIf type location
      → located y type location path ≡ ok backend
      → IsPlaced backend.type backend.location
  unfolding located
  located_lem local none path {backend} p h = ground arith
  located_lem local (some l) path {backend} p h = absurd p
  located_lem aws none path p h = cc
  located_lem gcp none path p h = cc
  located_lem aws (some l) path {backend} p h =
      subst (λ (b : BackendConfig). IsPlaced b.type b.location) (ok_inj h) p
  located_lem gcp (some l) path {backend} p h =
      subst (λ (b : BackendConfig). IsPlaced b.type b.location) (ok_inj h) p

  pub parse_backend_lem :
      (node : Option y.Node) (path : Text) {backend : BackendConfig}
      → parse_backend y node path ≡ ok backend
      → IsPlaced backend.type backend.location
  unfolding parse_backend
  parse_backend_lem none path {backend} h = ground arith
  parse_backend_lem (some node) path {backend} h = grind (arith, located_lem, parse_location_lem)
