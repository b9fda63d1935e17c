-- ===== src/Manifest/Entries.antt =====
-- The secrets and the plain variables of an environment (src/manifest.cpp).
pub mod Checked
use secretov.Prelude.{
  Option, none, some, Bool, true, false, not, ◌||◌, List, [], ◌∷◌, ◌++◌, if◌then◌else◌,
}
use secretov.Prelude.Result.{Result, ok, err, ◌>>=◌, ◌>>◌}
use secretov.Prelude.Text.{Text, lit, text_eq, is_empty}
use secretov.Manifest.Cloud.{BackendType, local, aws, gcp, resolve_aws_path, resolve_gcp_path}
use secretov.Manifest.EnvNames.{require_manifest_env_name}
use secretov.Manifest.Parse.{
  EntryKind, text, kv, SecretEntry, KeyValues, refuse, refuse_unknown_keys, scalar_at,
}
use secretov.Manifest.Scopes.{scoped_key}
use secretov.Manifest.Yaml.{Yaml, Fault, from_yaml, from_code}

-- Where an entry stands: the manifest's path, the environment, the project, and its backend.
pub record Place : Type 0 where
  pub path : Text
  pub env : Text
  pub project : Text
  pub backend : BackendType
  pub env_location : Text

unfoldable pub parse_kind : Text → Text → Option Text → Result Fault EntryKind
parse_kind path described none = ok text
parse_kind path described (some kind) =
    if text_eq kind (lit "kv")
    then ok kv
    else if not (text_eq kind (lit "text"))
    then refuse path (described ++ lit " kind must be text or kv")
    else ok text

-- What the parser has read of an entry before the backend's part.
pub record Read : Type 0 where
  pub name : Text
  pub env_var : Text
  pub kind : EntryKind
  pub key : Option Text
  pub secret_path : Option Text

unfoldable pub local_path : Place → Read → Result Fault Text
local_path at r = elim r.key [
  | some key ↦ ok key
  | none ↦ from_code (scoped_key at.env at.project r.name)
]

unfoldable pub local_entry : Place → Text → Read → Result Fault SecretEntry
local_entry at described r = elim r.secret_path [
  | some secret_path ↦
      refuse at.path (described ++ lit " path is for cloud backends; a local entry uses key:")
  | none ↦ elim r.kind [
    | kv ↦
        refuse at.path (described ++ lit " kind kv needs a cloud backend; local entries are text")
    | text ↦ do
      path ← local_path at r
      ok (record {
        name = r.name;
        kind = text;
        path = path;
        field = [];
        location = [];
        env_var = r.env_var;
      })
  ]
]

unfoldable pub entry_field : Place → Text → Read → Result Fault Text
entry_field at described r = elim r.kind [
  | text ↦ elim r.key [
    | some key ↦ refuse at.path (described ++ lit " key names a JSON field and needs kind: kv")
    | none ↦ ok []
  ]
  | kv ↦ elim r.key [
    | none ↦ refuse at.path (described ++ lit " kind kv needs key")
    | some key ↦ ok key
  ]
]

unfoldable pub resolve_path : Place → Text → Text → Result Text Text
resolve_path at described secret_path = elim at.backend [
  | aws ↦ resolve_aws_path secret_path at.env_location at.path described
  | _ ↦ resolve_gcp_path secret_path at.env_location at.path described
]

unfoldable pub cloud_entry : Place → Text → Read → Result Fault SecretEntry
cloud_entry at described r = elim r.secret_path [
  | none ↦ refuse at.path (described ++ lit " needs an explicit path")
  | some secret_path ↦ do
    field ← entry_field at described r
    location ← from_code (resolve_path at described secret_path)
    ok (record {
      name = r.name;
      kind = r.kind;
      path = secret_path;
      field = field;
      location = location;
      env_var = r.env_var;
    })
]

unfoldable pub finish_entry : Place → Text → Read → Result Fault SecretEntry
finish_entry at described r = elim at.backend [
  | local ↦ local_entry at described r
  | _ ↦ cloud_entry at described r
]

module _ (y : Yaml) where
  unfoldable pub optional_scalar : y.Node → Text → Text → Text → Text → Result Fault (Option Text)
  optional_scalar body key manifest_path described entry_name = elim (y.get body key) [
    | none ↦ ok none
    | some node ↦
        if not (y.is_scalar node)
        then refuse manifest_path (described ++ lit " " ++ key ++ lit " must be a string")
        else do
          value ← from_yaml (y.as_string node)
          if is_empty value
              then refuse manifest_path
                  (lit "secret '" ++ entry_name ++ lit "' has an empty " ++ key)
              else ok (some value)
  ]

  -- The entry behind the check that its body is a mapping with a scalar env_var_name.
  unfoldable pub parse_body : Place → Text → Text → y.Node → y.Node → Result Fault SecretEntry
  parse_body at name described body env_var_node = do
    _ ←
        refuse_unknown_keys y body (lit "env_var_name" ∷ lit "key" ∷ lit "kind" ∷ lit "path" ∷ [])
          at.path described
    env_var ← from_yaml (y.as_string env_var_node)
    _ ← from_code (
        require_manifest_env_name env_var at.path
          (described ++ lit " env_var_name '" ++ env_var ++ lit "'"))
    kind_name ← optional_scalar body (lit "kind") at.path described name
    kind ← parse_kind at.path described kind_name
    key ← optional_scalar body (lit "key") at.path described name
    secret_path ← optional_scalar body (lit "path") at.path described name
    finish_entry at described (record {
      name = name;
      env_var = env_var;
      kind = kind;
      key = key;
      secret_path = secret_path;
    })

  unfoldable pub parse_entry : Place → y.Node × y.Node → Result Fault SecretEntry
  parse_entry at (first, body) = do
    name ← from_yaml (y.as_string first)
    let described = lit "secret '" ++ name ++ lit "' (env " ++ at.env ++ lit ")"
    elim (if y.is_map body then scalar_at y body (lit "env_var_name") else none) [
      | none ↦ refuse at.path (described ++ lit " missing env_var_name")
      | some env_var_node ↦ parse_body at name described body env_var_node
    ]

  unfoldable pub parse_entries : Place → List (y.Node × y.Node) → Result Fault (List SecretEntry)
  parse_entries at [] = ok []
  parse_entries at (pair ∷ pairs) = do
    entry ← parse_entry at pair
    entries ← parse_entries at pairs
    ok (entry ∷ entries)

  unfoldable pub parse_env_secrets : Place → Option y.Node → Result Fault (List SecretEntry)
  parse_env_secrets at none = ok []
  parse_env_secrets at (some secrets) =
      if y.is_null secrets
      then ok []
      else if not (y.is_map secrets)
      then refuse at.path (lit "env '" ++ at.env ++ lit "' secrets must be a mapping")
      else parse_entries at (y.pairs secrets)

  unfoldable pub parse_vars : Text → Text → List (y.Node × y.Node) → Result Fault KeyValues
  parse_vars path env [] = ok []
  parse_vars path env ((first, second) ∷ pairs) = do
    var_name ← from_yaml (y.as_string first)
    let described = lit "var '" ++ var_name ++ lit "' (env " ++ env ++ lit ")"
    _ ← from_code (require_manifest_env_name var_name path described)
    value ←
        if not (y.is_scalar second)
        then refuse path (described ++ lit " must be a scalar value")
        else from_yaml (y.as_string second)
    plain ← parse_vars path env pairs
    ok ((var_name, value) ∷ plain)

  unfoldable pub parse_env_vars : Text → Text → Option y.Node → Result Fault KeyValues
  parse_env_vars path env none = ok []
  parse_env_vars path env (some vars) =
      if y.is_null vars
      then ok []
      else if not (y.is_map vars)
      then refuse path (lit "env '" ++ env ++ lit "' vars must be a mapping")
      else parse_vars path env (y.pairs vars)
