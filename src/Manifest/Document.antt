-- ===== src/Manifest/Document.antt =====
-- A whole manifest (src/manifest.cpp).
pub mod Valid
pub mod Checked
use secretov.Prelude.{
  Option, none, some, Bool, true, false, not, ◌||◌, List, [], ◌∷◌, ◌++◌, if◌then◌else◌,
}
use secretov.Prelude.Map.{insert}
use secretov.Prelude.Result.{Result, ok, err, ◌>>=◌, ◌>>◌}
use secretov.Prelude.Text.{Text, lit, text_eq}
use secretov.Manifest.Entries.{Place, parse_env_secrets, parse_env_vars}
use secretov.Manifest.EnvNames.{manifest_error}
use secretov.Manifest.Parse.{
  SecretEntry, KeyValues, Manifest, refuse, refuse_unknown_keys, scalar_at, parse_location,
  parse_backend,
}
use secretov.Manifest.Scopes.{require_segment}
use secretov.Manifest.Yaml.{Yaml, Fault, yaml, thrown, from_yaml, from_code}

abbrev pub manifest_file_name : Text
manifest_file_name = lit ".secretov.yaml"

unfoldable pub is_set : Text → List SecretEntry → Bool
is_set var_name [] = false
is_set var_name (entry ∷ entries) = text_eq entry.env_var var_name || is_set var_name entries

-- The first variable that is in both lists is refused.
unfoldable pub refuse_twice : Text → Text → KeyValues → List SecretEntry → Result Fault (Unit {0})
refuse_twice path env [] entries = ok tt
refuse_twice path env ((var_name, value) ∷ plain) entries =
    if is_set var_name entries
    then refuse path
        (lit "'" ++ var_name ++ lit "' (env " ++ env ++ lit ") is set in both vars and secrets")
    else refuse_twice path env plain entries

-- m.envs[env] = entries; m.vars[env] = plain;
abbrev pub with_env : Manifest → Text → List SecretEntry × KeyValues → Manifest
with_env m env (entries, plain) = record m {
  envs = insert env entries m.envs;
  vars = insert env plain m.vars;
}

unfoldable pub value_or : Option Text → Text → Text
value_or none otherwise = otherwise
value_or (some value) otherwise = value

-- An exception of the library gets the manifest's path; the others have it already.
unfoldable pub unfault {ℓ} : {A : Type ℓ} → Text → Result Fault A → Result Text A
unfault path (ok a) = ok a
unfault path (err (yaml what)) = err (manifest_error path what)
unfault path (err (thrown what)) = err what

module _ (y : Yaml) where
  -- What an environment that is not empty holds.
  unfoldable pub parse_env : Manifest → Text → y.Node → Result Fault (List SecretEntry × KeyValues)
  parse_env m env env_node =
      if y.is_null env_node
      then ok ([], [])
      else if not (y.is_map env_node)
      then refuse m.path (lit "env '" ++ env ++ lit "' must be a mapping")
      else do
        _ ←
            refuse_unknown_keys y env_node
              (lit "vars" ∷ lit "secrets" ∷ lit "region" ∷ lit "project" ∷ []) m.path
              (lit "env '" ++ env ++ lit "'")
        location ← parse_location y env_node m.backend.type m.path (lit "env '" ++ env ++ lit "'")
        entries ←
            parse_env_secrets y
              (record {
                path = m.path;
                env = env;
                project = m.project;
                backend = m.backend.type;
                env_location = value_or location m.backend.location;
              })
              (y.get env_node (lit "secrets"))
        plain ← parse_env_vars y m.path env (y.get env_node (lit "vars"))
        _ ← refuse_twice m.path env plain entries
        ok (entries, plain)

  unfoldable pub parse_envs : List (y.Node × y.Node) → Manifest → Result Fault Manifest
  parse_envs [] m = ok m
  parse_envs ((first, env_node) ∷ pairs) m = do
    env ← from_yaml (y.as_string first)
    _ ← from_code (require_segment env (lit "environment"))
    held ← parse_env m env env_node
    parse_envs pairs (with_env m env held)

  unfoldable pub parse_default : y.Node → Text → Result Fault (Option Text)
  parse_default doc path = elim (y.get doc (lit "default_env")) [
    | none ↦ ok none
    | some node ↦
        if not (y.is_scalar node)
        then refuse path (lit "default_env must be a string")
        else do name ← from_yaml (y.as_string node); ok (some name)
  ]

  unfoldable pub parse_all_envs : Option y.Node → Manifest → Result Fault Manifest
  parse_all_envs none m = ok m
  parse_all_envs (some envs) m =
      if y.is_null envs
      then ok m
      else if not (y.is_map envs)
      then refuse m.path (lit "'env' must be a mapping")
      else parse_envs (y.pairs envs) m

  -- The walk of the document.
  unfoldable pub parse_document : y.Node → Text → Result Fault Manifest
  parse_document doc path =
      if not (y.is_map doc)
      then err (thrown (lit "manifest '" ++ path ++ lit "' is not a mapping"))
      else do
        _ ←
            refuse_unknown_keys y doc
              (lit "version" ∷ lit "name" ∷ lit "backend" ∷ lit "default_env" ∷ lit "env" ∷ []) path
              manifest_file_name
        name_node ← elim (scalar_at y doc (lit "name")) [
          | none ↦ err (thrown (lit "manifest '" ++ path ++ lit "' missing 'name' field"))
          | some node ↦ ok node
        ]
        project ← from_yaml (y.as_string name_node)
        _ ← from_code (require_segment project (lit "project"))
        backend ← parse_backend y (y.get doc (lit "backend")) path
        default_env ← parse_default doc path
        parse_all_envs (y.get doc (lit "env")) (record {
          path = path;
          project = project;
          backend = backend;
          default_env = default_env;
          envs = [];
          vars = [];
        })

  unfoldable pub parse_manifest : Text → Text → Result Text Manifest
  parse_manifest text path =
      unfault path (do doc ← from_yaml (y.load text); parse_document doc path)
