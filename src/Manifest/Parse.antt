-- ===== src/Manifest/Parse.antt =====
-- The parser of manifests (src/manifest.cpp, src/manifest.hpp) over a YAML library.
pub mod Backend
use secretov.Prelude.{
  Option, none, some, Bool, true, false, not, ◌&&◌, ◌||◌, List, [], ◌∷◌, ◌++◌, is_some,
  if◌then◌else◌,
}
use secretov.Prelude.Map.{Map}
use secretov.Prelude.Result.{Result, ok, err, ◌>>=◌, ◌>>◌, throw_if}
use secretov.Prelude.Sorting.{mem_text}
use secretov.Prelude.Text.{Text, lit, text_eq, is_empty}
use secretov.Manifest.Cloud.{
  BackendType, local, aws, gcp, backend_type_name, require_aws_region, require_gcp_project,
}
use secretov.Manifest.EnvNames.{manifest_error}
use secretov.Manifest.Yaml.{Yaml, Fault, thrown, from_yaml, from_code}

pub data EntryKind : Type 0 where
  text kv : EntryKind

pub record BackendConfig : Type 0 where
  pub type : BackendType
  pub location : Text

pub record SecretEntry : Type 0 where
  pub name : Text
  pub kind : EntryKind
  pub path : Text
  pub field : Text
  pub location : Text
  pub env_var : Text

abbrev pub KeyValues : Type 0
KeyValues = List (Text × Text)

pub record Manifest : Type 0 where
  pub path : Text
  pub project : Text
  pub backend : BackendConfig
  pub default_env : Option Text
  pub envs : Map (List SecretEntry)
  pub vars : Map KeyValues

-- throw manifest_error(path, message)
abbrev pub refuse {ℓ} : {A : Type ℓ} → Text → Text → Result Fault A
refuse path message = err (thrown (manifest_error path message))

module _ (y : Yaml) where
  unfoldable pub unknown_keys :
      List (y.Node × y.Node) → List Text → Text → Text → Result Fault (Unit {0})
  unknown_keys [] allowed path where_ = ok tt
  unknown_keys ((first, second) ∷ pairs) allowed path where_ = do
    key ← from_yaml (y.as_string first)
    if not (mem_text key allowed)
        then refuse path (lit "unknown key '" ++ key ++ lit "' in " ++ where_)
        else unknown_keys pairs allowed path where_

  abbrev pub refuse_unknown_keys : y.Node → List Text → Text → Text → Result Fault (Unit {0})
  refuse_unknown_keys map = unknown_keys (y.pairs map)

  -- The key of a location: region, project, or none for a local backend.
  abbrev pub own_key : BackendType → Text
  own_key local = []
  own_key aws = lit "region"
  own_key gcp = lit "project"

  unfoldable pub refuse_other : y.Node → Text → BackendType → Text → Text → Result Fault (Unit {0})
  refuse_other node key type path where_ =
      if is_some (y.get node key) && not (text_eq key (own_key type))
      then refuse path (
          where_
          ++ lit " '"
          ++ key
          ++ lit "' is not valid with backend type "
          ++ backend_type_name type)
      else ok tt

  unfoldable pub require_location : BackendType → Text → Text → Text → Result Fault (Unit {0})
  require_location local value path where_ = from_code (require_gcp_project value path where_)
  require_location aws value path where_ = from_code (require_aws_region value path where_)
  require_location gcp value path where_ = from_code (require_gcp_project value path where_)

  unfoldable pub parse_location : y.Node → BackendType → Text → Text → Result Fault (Option Text)
  parse_location node type path where_ =
      refuse_other node (lit "region") type path where_
      >> refuse_other node (lit "project") type path where_
      >> (if is_empty (own_key type) then ok none else elim (y.get node (own_key type)) [
        | none ↦ ok none
        | some value_node ↦
            if not (y.is_scalar value_node)
            then refuse path (where_ ++ lit " " ++ own_key type ++ lit " must be a string")
            else do
              value ← from_yaml (y.as_string value_node)
              _ ← require_location type value path where_
              ok (some value)
      ])

  unfoldable pub backend_type : Text → Text → Result Fault BackendType
  backend_type type_name path =
      if text_eq type_name (lit "local")
      then ok local
      else if text_eq type_name (lit "aws")
      then ok aws
      else if text_eq type_name (lit "gcp")
      then ok gcp
      else refuse path (lit "backend type '" ++ type_name ++ lit "' is not one of local, aws, gcp")

  -- The location of a backend that is not local has to be there.
  unfoldable pub located : BackendType → Option Text → Text → Result Fault BackendConfig
  located local location path = ok (record { type = local; location = [] })
  located type (some location) path = ok (record { type = type; location = location })
  located type none path =
      refuse path (lit "backend type " ++ backend_type_name type ++ lit " needs " ++ own_key type)

  -- node["type"] of a mapping that has a scalar there
  unfoldable pub scalar_at : y.Node → Text → Option y.Node
  scalar_at node key = elim (y.get node key) [
    | none ↦ none
    | some value ↦ if y.is_scalar value then some value else none
  ]

  unfoldable pub parse_backend : Option y.Node → Text → Result Fault BackendConfig
  parse_backend none path = ok (record { type = local; location = [] })
  parse_backend (some node) path =
      if not (y.is_map node)
      then refuse path (lit "'backend' must be a mapping")
      else refuse_unknown_keys node (lit "type" ∷ lit "region" ∷ lit "project" ∷ []) path
          (lit "backend:")
        >> elim (scalar_at node (lit "type")) [
          | none ↦ refuse path (lit "backend needs a type: local, aws or gcp")
          | some type_node ↦ do
            type_name ← from_yaml (y.as_string type_node)
            type ← backend_type type_name path
            location ← parse_location node type path (lit "backend")
            located type location path
        ]
