-- ===== src/Manifest/Cloud/Located.antt =====
-- A cloud path that passes is in a place that was checked.
use secretov.Prelude.{◌≡◌, true, some, List, [], ◌∷◌, arith}
use secretov.Prelude.Result.{ok}
use secretov.Prelude.Text.{Text}
use secretov.Manifest.Cloud.{
  is_gcp_project, is_known_aws_region, split_on, require_aws_region, resolve_aws_path,
  resource_project, resolve_gcp_path,
}

pub resolve_aws_path_lem :
    (secret_path env_location manifest_path described : Text) {location : Text}
    → is_known_aws_region env_location ≡ true
    → resolve_aws_path secret_path env_location manifest_path described ≡ ok location
    → is_known_aws_region location ≡ true
unfolding resolve_aws_path require_aws_region
resolve_aws_path_lem secret_path env_location manifest_path described h e = ground arith

resource_project_lem :
    (parts : List Text) {project : Text}
    → resource_project parts ≡ some project
    → is_gcp_project project ≡ true
unfolding resource_project
resource_project_lem (p0 ∷ p1 ∷ p2 ∷ p3 ∷ []) h = ground arith
resource_project_lem [] h = cc
resource_project_lem (p0 ∷ []) h = cc
resource_project_lem (p0 ∷ p1 ∷ []) h = cc
resource_project_lem (p0 ∷ p1 ∷ p2 ∷ []) h = cc
resource_project_lem (p0 ∷ p1 ∷ p2 ∷ p3 ∷ p4 ∷ parts) h = cc

pub resolve_gcp_path_lem :
    (secret_path env_location manifest_path described : Text) {location : Text}
    → is_gcp_project env_location ≡ true
    → resolve_gcp_path secret_path env_location manifest_path described ≡ ok location
    → is_gcp_project location ≡ true
unfolding resolve_gcp_path
resolve_gcp_path_lem secret_path env_location manifest_path described {location} h e =
    ground (arith, resource_project_lem (split_on secret_path b'/') {project = location})
