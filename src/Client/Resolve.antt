-- ===== src/Client/Resolve.antt =====
-- The names, projects and environments that the commands are given (src/client.cpp).
pub mod Arguments
pub mod Project
pub mod Scope
use secretov.Prelude.{
  ℕ, Option, none, some, Bool, true, false, not, ◌&&◌, ◌||◌, List, [], ◌∷◌, ◌++◌, is_some, is_nil,
  if◌then◌else◌,
}
use secretov.Prelude.Result.{Result, ok, err, ◌>>=◌, throw_if}
use secretov.Prelude.Text.{Text, lit, is_empty, text_eq, starts_with}
use secretov.Client.Plan.{ScopeArgs, resolve_env}
use secretov.Manifest.Cloud.{BackendType, local}
use secretov.Manifest.Document.{manifest_file_name}
use secretov.Manifest.Files.{FileSystem, load_manifest, find_manifest_upward}
use secretov.Manifest.Parse.{Manifest}
use secretov.Manifest.Registry.{Environment, registry_project_root}
use secretov.Manifest.Scopes.{scoped_key}
use secretov.Manifest.Trust.{Accounts}
use secretov.Manifest.Yaml.{Yaml}

-- What parse_entry_args makes of the arguments: NAME and the scope, the usage alone, or an error
-- before the usage.
pub data Entry : Type 0 where
  named : Text → ScopeArgs → Entry
  usage : Entry
  refused : Text → Entry

-- What the next argument is: a value of the flag before it, or any argument.
pub data Next : Type 0 where
  any_argument : Next
  project_of env_of : Text → Next

-- The flags that take_scope_arg consumes; for a raw key only "-p" and "-e" are flags.
unfoldable pub scope_flag : Bool → Text → Option Next
scope_flag raw_key arg =
    if text_eq arg (lit "-p") || (not raw_key && text_eq arg (lit "--project"))
    then some (project_of arg)
    else if text_eq arg (lit "-e") || (not raw_key && text_eq arg (lit "--env"))
    then some (env_of arg)
    else none

-- What ends or continues the options.
unfoldable pub flag_at : Bool → Bool → Text → Option (Bool × Next)
flag_at raw_key options_ended arg =
    if options_ended
    then none
    else if raw_key && text_eq arg (lit "--")
    then some (true, any_argument)
    else elim (scope_flag raw_key arg) [ none ↦ none | some next ↦ some (false, next) ]

unfoldable pub ends_entry : Bool → Option Text → ScopeArgs → Entry
ends_entry raw_key (some name) scope = named name scope
ends_entry true none scope = usage
ends_entry false none scope = refused (lit "missing KEY")

unfoldable pub parse_entry_args : Bool → Next → List Text → Bool → Option Text → ScopeArgs → Entry
parse_entry_args raw_key any_argument [] options_ended name scope = ends_entry raw_key name scope
parse_entry_args raw_key (project_of flag) [] options_ended name scope =
    refused (flag ++ lit " requires a value")
parse_entry_args raw_key (env_of flag) [] options_ended name scope =
    refused (flag ++ lit " requires a value")
parse_entry_args raw_key (project_of flag) (arg ∷ rest) options_ended name scope =
    parse_entry_args raw_key any_argument rest options_ended name
      (record { project = some arg; env = scope.env })
parse_entry_args raw_key (env_of flag) (arg ∷ rest) options_ended name scope =
    parse_entry_args raw_key any_argument rest options_ended name
      (record { project = scope.project; env = some arg })
parse_entry_args raw_key any_argument (arg ∷ rest) options_ended name scope =
    elim (flag_at raw_key options_ended arg) [
      | some next ↦ parse_entry_args raw_key next.1 rest next.0 name scope
      | none ↦ elim (is_some name || (is_empty arg || (not raw_key && starts_with (lit "-") arg))) [
        | true ↦ refused (lit "unexpected argument '" ++ (arg ++ lit "'"))
        | false ↦ parse_entry_args raw_key any_argument rest options_ended (some arg) scope
      ]
    ]

-- The environment and project of a scope, and the manifest, where there is one.
pub record ResolvedScope : Type 0 where
  pub env : Text
  pub project : Text
  pub manifest : Option Manifest

unfoldable pub backend_of : ResolvedScope → BackendType
backend_of resolved = elim resolved.manifest [ none ↦ local | some m ↦ m.backend.type ]

-- A get/set/delete NAME: the backend and the path in it.
pub record Target : Type 0 where
  pub backend : BackendType
  pub path : Text

unfoldable pub project_of_scope : Option Text → Option Manifest → Text
project_of_scope (some project) manifest = project
project_of_scope none (some m) = m.project
project_of_scope none none = []

module _ (a : Accounts) (fs : FileSystem) where
  unfoldable pub nearest_manifest : Text → Option Text
  nearest_manifest dir = elim (find_manifest_upward a fs dir) [ none ↦ none | some found ↦ found ]

module _ (a : Accounts) (fs : FileSystem) (y : Yaml) where
  unfoldable pub registered_manifest : Text → Text → Result Text Manifest
  registered_manifest project root = do
    m ← load_manifest a fs y (root ++ (lit "/" ++ manifest_file_name))
    _ ← throw_if (not (text_eq m.project project)) (
        lit "manifest "
        ++ (m.path
            ++ (lit " names project '"
                ++ (m.project ++ (lit "' but registry entry is '" ++ (project ++ lit "'"))))))
    ok m

  unfoldable pub found_manifest : Option Text → Result Text Manifest
  found_manifest none = err (
      lit "no "
      ++ (manifest_file_name ++ lit " found from the current directory upward; pass -p NAME"))
  found_manifest (some path) = load_manifest a fs y path

  -- `cwd`: getcwd, with the error that it throws.
  unfoldable pub enclosing_manifest : Result Text Text → Result Text Manifest
  enclosing_manifest cwd = do dir ← cwd; found_manifest (nearest_manifest a fs dir)

  module _ (environment : Environment) (registry_path : Text) where
    unfoldable pub project_manifest : Text → Result Text Manifest
    project_manifest project = do
      root ← registry_project_root a fs y environment registry_path project
      elim root [
        | none ↦ err (
            lit "project '"
            ++ (project
                ++ (lit "' is not in "
                    ++ (registry_path ++ lit "; add it there or run from inside the project"))))
        | some dir ↦ registered_manifest project dir
      ]

    module _ (cwd : Result Text Text) where
      unfoldable pub resolve_manifest : Option Text → Result Text Manifest
      resolve_manifest none = enclosing_manifest cwd
      resolve_manifest (some project) = project_manifest project

      -- The manifest of a scope: none for a project that is not registered.
      unfoldable pub scope_manifest : Option Text → Result Text (Option Manifest)
      scope_manifest none = do m ← enclosing_manifest cwd; ok (some m)
      scope_manifest (some project) = do
        root ← registry_project_root a fs y environment registry_path project
        if is_some root then (do m ← project_manifest project; ok (some m)) else ok none

      -- `override`: SECRETOV_ENV.
      unfoldable pub resolve_scope : Option Text → ScopeArgs → Result Text ResolvedScope
      resolve_scope override scope = do
        manifest ← scope_manifest scope.project
        env ← resolve_env scope override manifest
        ok (record {
          env = env;
          project = project_of_scope scope.project manifest;
          manifest = manifest;
        })

      unfoldable pub resolve_target : Option Text → ScopeArgs → Text → Result Text Target
      resolve_target override scope name =
          if not (is_some scope.project) && not (is_some scope.env)
          then ok (record { backend = local; path = name })
          else (do
            resolved ← resolve_scope override scope
            path ← scoped_key resolved.env resolved.project name
            ok (record { backend = backend_of resolved; path = path }))
