-- ===== src/Manifest/Cloud.antt =====
-- Names of cloud secrets, and where they are (src/manifest.cpp).
pub mod Located
pub mod Split
use secretov.Prelude.{
  ℕ, zero, suc, Option, none, some, Bool, true, false, not, ◌&&◌, ◌||◌, List, [], ◌∷◌, ◌++◌, take,
  drop, length, leb, ◌==◌, if◌then◌else◌,
}
use secretov.Prelude.Result.{Result, ok, err, throw_if}
use secretov.Prelude.Sorting.{mem_text}
use secretov.Prelude.Text.{Text, lit, text_eq, is_empty, starts_with, has_byte, find_byte}
use secretov.Manifest.EnvNames.{within, manifest_error}

pub data BackendType : Type 0 where
  local aws gcp : BackendType

unfoldable pub backend_type_name : BackendType → Text
backend_type_name local = lit "local"
backend_type_name aws = lit "aws"
backend_type_name gcp = lit "gcp"

unfoldable pub is_ascii_alnum : ℕ → Bool
is_ascii_alnum c = within b'0' b'9' c || within b'a' b'z' c || within b'A' b'Z' c

unfoldable pub is_lower_or_digit : ℕ → Bool
is_lower_or_digit c = within b'0' b'9' c || within b'a' b'z' c

unfoldable pub all_of : (ℕ → Bool) → Text → Bool
all_of test [] = true
all_of test (c ∷ s) = test c && all_of test s

unfoldable pub is_name : Text → Text → ℕ → Bool
is_name s extra max =
    not (is_empty s) && (leb (length s) max && all_of (λ c. is_ascii_alnum c || has_byte c extra) s)

unfoldable pub is_aws_secret_name : Text → Bool
is_aws_secret_name s = is_name s (lit "/_+=.@-") 512

unfoldable pub is_gcp_secret_id : Text → Bool
is_gcp_secret_id s = is_name s (lit "_-") 255

unfoldable pub front_is : (ℕ → Bool) → Text → Bool
front_is test [] = false
front_is test (c ∷ s) = test c

unfoldable pub back_is : (ℕ → Bool) → Text → Bool
back_is test [] = false
back_is test (c ∷ []) = test c
back_is test (c ∷ d ∷ s) = back_is test (d ∷ s)

unfoldable pub is_gcp_project : Text → Bool
is_gcp_project s =
    leb 6 (length s)
    && (leb (length s) 30
        && (front_is (within b'a' b'z') s
            && (back_is is_lower_or_digit s && all_of (λ c. is_lower_or_digit c || c == b'-') s)))

unfoldable pub is_aws_account : Text → Bool
is_aws_account s = length s == 12 && all_of (within b'0' b'9') s

abbrev pub known_regions : List Text
known_regions =
    lit "us-east-1"
    ∷ lit "us-east-2"
    ∷ lit "us-west-1"
    ∷ lit "us-west-2"
    ∷ lit "af-south-1"
    ∷ lit "ap-east-1"
    ∷ lit "ap-east-2"
    ∷ lit "ap-south-1"
    ∷ lit "ap-south-2"
    ∷ lit "ap-southeast-1"
    ∷ lit "ap-southeast-2"
    ∷ lit "ap-southeast-3"
    ∷ lit "ap-southeast-4"
    ∷ lit "ap-southeast-5"
    ∷ lit "ap-southeast-6"
    ∷ lit "ap-southeast-7"
    ∷ lit "ap-northeast-1"
    ∷ lit "ap-northeast-2"
    ∷ lit "ap-northeast-3"
    ∷ lit "ca-central-1"
    ∷ lit "ca-west-1"
    ∷ lit "eu-central-1"
    ∷ lit "eu-central-2"
    ∷ lit "eu-west-1"
    ∷ lit "eu-west-2"
    ∷ lit "eu-west-3"
    ∷ lit "eu-north-1"
    ∷ lit "eu-south-1"
    ∷ lit "eu-south-2"
    ∷ lit "il-central-1"
    ∷ lit "me-south-1"
    ∷ lit "me-central-1"
    ∷ lit "mx-central-1"
    ∷ lit "sa-east-1"
    ∷ []

unfoldable pub is_known_aws_region : Text → Bool
is_known_aws_region region = mem_text region known_regions

-- A round for each separator, and one for what stands behind the last.
unfoldable pub split_from : ℕ → Text → ℕ → List Text
split_from zero s separator = []
split_from (suc fuel) s separator = elim (find_byte separator s) [
  | none ↦ s ∷ []
  | some at ↦ take at s ∷ split_from fuel (drop (suc at) s) separator
]

unfoldable pub split_on : Text → ℕ → List Text
split_on s separator = split_from (suc (length s)) s separator

unfoldable pub require_aws_region : Text → Text → Text → Result Text (Unit {0})
require_aws_region region manifest_path what = throw_if (not (is_known_aws_region region)) (
    manifest_error manifest_path (
      what
      ++ lit " region '"
      ++ region
      ++ lit "' is not in this build's region table; upgrade secretov"))

unfoldable pub require_gcp_project : Text → Text → Text → Result Text (Unit {0})
require_gcp_project project manifest_path what = throw_if (not (is_gcp_project project)) (
    manifest_error manifest_path (
      what
      ++ lit " project '"
      ++ project
      ++ lit "' is not a valid GCP project id (lowercase id, 6-30 characters)"))

-- The region of the parts of an ARN.
unfoldable pub arn_region : List Text → Option Text
arn_region (p0 ∷ p1 ∷ p2 ∷ p3 ∷ p4 ∷ p5 ∷ p6 ∷ []) =
    if not (text_eq p1 (lit "aws"))
      || (not (text_eq p2 (lit "secretsmanager"))
          || (not (is_aws_account p4)
              || (not (text_eq p5 (lit "secret")) || not (is_aws_secret_name p6))))
    then none
    else some p3
arn_region _ = none

unfoldable pub resolve_aws_path : Text → Text → Text → Text → Result Text Text
resolve_aws_path secret_path env_location manifest_path described =
    if not (starts_with (lit "arn:") secret_path)
    then (if not (is_aws_secret_name secret_path)
        then err (
            manifest_error manifest_path
              (described ++ lit " path is not a valid AWS secret name or ARN"))
        else ok env_location)
    else elim (arn_region (split_on secret_path b':')) [
      | none ↦ err (
          manifest_error manifest_path (
            described
            ++ lit " path is not a valid ARN (arn:aws:secretsmanager:REGION:ACCOUNT:secret:NAME; "
            ++ lit "partition aws only)"))
      | some region ↦ elim (require_aws_region region manifest_path (described ++ lit " ARN")) [
        | err e ↦ err e
        | ok _ ↦ ok region
      ]
    ]

-- The project of the parts of a resource name.
unfoldable pub resource_project : List Text → Option Text
resource_project (p0 ∷ p1 ∷ p2 ∷ p3 ∷ []) =
    if not (text_eq p2 (lit "secrets")) || (not (is_gcp_project p1) || not (is_gcp_secret_id p3))
    then none
    else some p1
resource_project _ = none

unfoldable pub resolve_gcp_path : Text → Text → Text → Text → Result Text Text
resolve_gcp_path secret_path env_location manifest_path described =
    if not (starts_with (lit "projects/") secret_path)
    then (if not (is_gcp_secret_id secret_path)
        then err (
            manifest_error manifest_path
              (described ++ lit " path is not a valid GCP secret id or resource name"))
        else ok env_location)
    else elim (resource_project (split_on secret_path b'/')) [
      | none ↦ err (
          manifest_error manifest_path
            (described ++ lit " path is not a valid resource name (projects/PROJECT/secrets/ID)"))
      | some project ↦ ok project
    ]
