-- ===== src/Manifest/Yaml.antt =====
-- What the manifest's parser uses of yaml-cpp, and the two kinds of exception that reach
-- `parse_manifest` (src/manifest.cpp): it gives those of yaml-cpp the manifest's path.
use secretov.Prelude.{Option, Bool, List}
use secretov.Prelude.Result.{Result, ok, err}
use secretov.Prelude.Text.{Text}

pub record Yaml : Type 1 where
  pub Node : Type 0
  -- Load, and as<std::string>(): an exception with its text
  pub load : Text → Result Text Node
  pub as_string : Node → Result Text Text
  pub is_map : Node → Bool
  pub is_null : Node → Bool
  pub is_scalar : Node → Bool
  pub is_sequence : Node → Bool
  -- node[key] of a mapping; none: not defined
  pub get : Node → Text → Option Node
  -- node[key] of any node, which throws for a scalar
  pub subscript : Node → Text → Result Text (Option Node)
  -- the entries of a mapping and the items of a sequence, in order
  pub pairs : Node → List (Node × Node)
  pub items : Node → List Node

pub data Fault : Type 0 where
  yaml thrown : Text → Fault

abbrev pub from_yaml {ℓ} : {A : Type ℓ} → Result Text A → Result Fault A
from_yaml (ok a) = ok a
from_yaml (err what) = err (yaml what)

abbrev pub from_code {ℓ} : {A : Type ℓ} → Result Text A → Result Fault A
from_code (ok a) = ok a
from_code (err what) = err (thrown what)
