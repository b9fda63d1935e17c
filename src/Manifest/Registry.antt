-- ===== src/Manifest/Registry.antt =====
-- The registry of projects (src/manifest.cpp): a project's root, and the targets of writes.
pub mod Expanded
pub mod Targets
use secretov.Prelude.{
  Option, none, some, Bool, true, false, not, ◌&&◌, ◌||◌, ◌==◌, List, [], ◌∷◌, ◌++◌, drop,
  if◌then◌else◌,
}
use secretov.Prelude.Result.{Result, ok, err, ◌>>=◌, throw_if}
use secretov.Prelude.Text.{Text, lit, is_empty, text_eq, starts_with}
use secretov.Manifest.Cloud.{is_aws_account, is_gcp_project}
use secretov.Manifest.Document.{unfault}
use secretov.Manifest.Files.{FileSystem, read_manifest_text}
use secretov.Manifest.Trust.{Accounts}
use secretov.Manifest.Yaml.{Yaml, Fault, yaml, thrown, from_yaml, from_code}

-- getenv; none: not set
abbrev pub Environment : Type 0
Environment = Text → Option Text

-- The two variables that may stand in a path.
unfoldable pub expanded_variable : Environment → Text → Text → Result Text Text
expanded_variable env s name =
    if not (text_eq name (lit "HOME")) && not (text_eq name (lit "USER"))
    then err (lit "unsupported variable ${" ++ (name ++ lit "} (only HOME, USER)"))
    else elim (env name) [
      | none ↦ err (name ++ (lit " is not set; cannot expand '" ++ (s ++ lit "'")))
      | some v ↦
          if is_empty v
          then err (name ++ (lit " is not set; cannot expand '" ++ (s ++ lit "'")))
          else ok v
    ]

-- Where the scan stands: outside of "${", or behind it and the front of a name.
pub data Scan : Type 0 where
  outside opened : Scan
  in_name : Text → Scan

-- `opened` is at the '{' behind a '$'.
unfoldable pub expand_from : Environment → Text → Scan → Text → Result Text Text
expand_from env s outside [] = ok []
expand_from env s opened [] = ok []
expand_from env s (in_name name) [] = err (lit "unterminated ${ in '" ++ (s ++ lit "'"))
expand_from env s outside (c ∷ rest) = elim ((c == b'$') && starts_with (lit "{") rest) [
  | true ↦ expand_from env s opened rest
  | false ↦ do out ← expand_from env s outside rest; ok (c ∷ out)
]
expand_from env s opened (c ∷ rest) = expand_from env s (in_name []) rest
expand_from env s (in_name name) (c ∷ rest) = elim (c == b'}') [
  | true ↦ do v ← expanded_variable env s name; out ← expand_from env s outside rest; ok (v ++ out)
  | false ↦ expand_from env s (in_name (name ++ (c ∷ []))) rest
]

unfoldable pub expand_vars : Environment → Text → Result Text Text
expand_vars env s = expand_from env s outside s

unfoldable pub registry_error : Text → Text → Text
registry_error registry_path what = lit "registry '" ++ (registry_path ++ (lit "': " ++ what))

abbrev pub relabel {ℓ} : {A : Type ℓ} → Text → Result Fault A → Result Text A
relabel registry_path (ok v) = ok v
relabel registry_path (err (yaml what)) = err (registry_error registry_path what)
relabel registry_path (err (thrown what)) = err what

unfoldable pub is_write_target : Text → Bool
is_write_target target =
    (starts_with (lit "aws-account:") target && is_aws_account (drop 12 target))
    || (starts_with (lit "gcp:") target && is_gcp_project (drop 4 target))

module _ (y : Yaml) where
  unfoldable pub load_text : Text → Text → Result Text y.Node
  unfolding registry_error
  load_text registry_path text = relabel registry_path (from_yaml (y.load text))

  abbrev pub present : Option y.Node → Option y.Node
  present none = none
  present (some node) = if y.is_null node then none else some node

  unfoldable pub root_of : Text → Text → y.Node → Result Fault (Option Text)
  unfolding registry_error
  root_of registry_path name project =
      let refused = err (
        thrown
          (registry_error registry_path (lit "project '" ++ (name ++ lit "' has no 'root'")))) in
      if not (y.is_map project) then refused else elim (y.get project (lit "root")) [
        | none ↦ refused
        | some root ↦
            if not (y.is_scalar root)
            then refused
            else (do spec ← from_yaml (y.as_string root); ok (some spec))
      ]

  -- The root as it is written.
  unfoldable pub root_spec : Text → Text → y.Node → Result Fault (Option Text)
  unfolding registry_error
  root_spec registry_path name doc = do
    projects ← from_yaml (y.subscript doc (lit "projects"))
    elim (present projects) [
      | none ↦ ok none
      | some node ↦
          if not (y.is_map node)
          then err (thrown (registry_error registry_path (lit "'projects' must be a mapping")))
          else elim (present (y.get node name)) [
            | none ↦ ok none
            | some project ↦ root_of registry_path name project
          ]
    ]

  unfoldable pub targets_from : Text → List y.Node → Result Fault (List Text)
  unfolding registry_error
  targets_from registry_path [] = ok []
  targets_from registry_path (item ∷ items) = do
    target ← if y.is_scalar item then from_yaml (y.as_string item) else ok []
    _ ← from_code (
        throw_if (not (is_write_target target)) (
          registry_error registry_path (
            lit "write_targets entry '"
            ++ (target ++ lit "' must be aws-account:<12-digit account> or gcp:<project id>"))))
    targets ← targets_from registry_path items
    ok (target ∷ targets)

  unfoldable pub listed_targets : Text → y.Node → Result Fault (List Text)
  unfolding registry_error
  listed_targets registry_path doc = do
    listed ← from_yaml (y.subscript doc (lit "write_targets"))
    elim (present listed) [
      | none ↦ ok []
      | some node ↦
          if not (y.is_sequence node)
          then err (thrown (registry_error registry_path (lit "'write_targets' must be a list")))
          else targets_from registry_path (y.items node)
    ]

module _ (a : Accounts) (fs : FileSystem) (y : Yaml) where
  -- none: there is no registry, and its document is the null node.
  unfoldable pub load_registry : Text → Result Text (Option y.Node)
  load_registry registry_path = if not (fs.is_there registry_path) then ok none else (do
    text ← read_manifest_text a fs registry_path (lit "registry")
    doc ← load_text y registry_path text
    ok (some doc))

  -- The root of a project that the registry has, if the directory is there.
  unfoldable pub existing_root : Environment → Option Text → Result Text (Option Text)
  existing_root env none = ok none
  existing_root env (some spec) = do
    root ← expand_vars env spec
    _ ← throw_if (not (fs.is_there root)) (lit "project root not found: " ++ root)
    ok (some root)

  unfoldable pub document_root :
      Environment → Text → Text → Option y.Node → Result Text (Option Text)
  document_root env registry_path name none = ok none
  document_root env registry_path name (some doc) = do
    spec ← relabel registry_path (root_spec y registry_path name doc)
    existing_root env spec

  unfoldable pub registry_project_root : Environment → Text → Text → Result Text (Option Text)
  registry_project_root env registry_path name = do
    doc ← load_registry registry_path
    document_root env registry_path name doc

  unfoldable pub registry_write_targets : Text → Result Text (List Text)
  registry_write_targets registry_path = do
    doc ← load_registry registry_path
    elim doc [
      | none ↦ ok []
      | some node ↦ relabel registry_path (listed_targets y registry_path node)
    ]
