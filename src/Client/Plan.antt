-- ===== src/Client/Plan.antt =====
-- secretov exec: the arguments, and the secrets and variables that they ask for (cmd_exec of
-- src/client.cpp).
use secretov.Prelude.{
  suc, Option, none, some, Bool, true, false, not, ◌||◌, ◌&&◌, List, [], ◌∷◌, ◌++◌, is_nil, is_some,
  if◌then◌else◌, take, drop,
}
use secretov.Prelude.Map.{lookup}
use secretov.Prelude.Result.{Result, ok, err, ◌>>=◌}
use secretov.Prelude.Text.{Text, lit, text_eq, is_empty, find_byte}
use secretov.Manifest.Cloud.{BackendType, local, backend_type_name}
use secretov.Manifest.Parse.{SecretEntry, KeyValues, Manifest}

pub record ScopeArgs : Type 0 where
  pub project : Option Text
  pub env : Option Text

pub record ExecArgs : Type 0 where
  pub scope : ScopeArgs
  pub dry_run : Bool
  -- (key, envvar)
  pub raw : KeyValues

-- What the next argument is: the value of a flag, given as it was written, or no value.
pub data Expecting : Type 0 where
  a_flag a_spec : Expecting
  a_project an_env : Text → Expecting

unfoldable pub add_spec : ExecArgs → Text → ExecArgs
add_spec args spec = elim (find_byte b'=' spec) [
  | none ↦ record args { raw = args.raw ++ ((spec, spec) ∷ []) }
  | some eq ↦ record args { raw = args.raw ++ ((take eq spec, drop (suc eq) spec) ∷ []) }
]

-- A flag; none: the "--" that ends the flags.
unfoldable pub take_flag : Text → ExecArgs → Result Text (Option (Expecting × ExecArgs))
take_flag arg args =
    if text_eq arg (lit "--")
    then ok none
    else if text_eq arg (lit "-p") || text_eq arg (lit "--project")
    then ok (some (a_project arg, args))
    else if text_eq arg (lit "-e") || text_eq arg (lit "--env")
    then ok (some (an_env arg, args))
    else if text_eq arg (lit "--dry-run")
    then ok (some (a_flag, record args { dry_run = true }))
    else if text_eq arg (lit "--secret")
    then ok (some (a_spec, args))
    else err (lit "unexpected argument '" ++ arg ++ lit "' before '--'")

-- The arguments, and the program behind them.
unfoldable pub parse_exec_args :
    Expecting → List Text → ExecArgs → Result Text (ExecArgs × List Text)
parse_exec_args a_flag [] args = ok (args, [])
parse_exec_args a_spec [] args = err (lit "--secret requires KEY[=ENVVAR]")
parse_exec_args (a_project flag) [] args = err (flag ++ lit " requires a value")
parse_exec_args (an_env flag) [] args = err (flag ++ lit " requires a value")
parse_exec_args a_spec (arg ∷ rest) args = parse_exec_args a_flag rest (add_spec args arg)
parse_exec_args (a_project flag) (arg ∷ rest) args =
    parse_exec_args a_flag rest
      (record args { scope = record { project = some arg; env = args.scope.env } })
parse_exec_args (an_env flag) (arg ∷ rest) args =
    parse_exec_args a_flag rest
      (record args { scope = record { project = args.scope.project; env = some arg } })
parse_exec_args a_flag (arg ∷ rest) args = do
  flag ← take_flag arg args
  elim flag [ none ↦ ok (args, rest) | some next ↦ parse_exec_args next.0 rest next.1 ]

-- -e, then the variable if it is not empty, then the manifest's default.
unfoldable pub filled : Option Text → Option Text
filled none = none
filled (some value) = if is_empty value then none else some value

unfoldable pub no_env : Result Text Text
no_env =
    err (lit "no environment: pass -e ENV, set SECRETOV_ENV, or add default_env to the manifest")

unfoldable pub resolve_env : ScopeArgs → Option Text → Option Manifest → Result Text Text
resolve_env scope override manifest = elim scope.env [
  | some env ↦ ok env
  | none ↦ elim (filled override) [
    | some env ↦ ok env
    | none ↦ elim manifest [
      | none ↦ no_env
      | some m ↦ elim m.default_env [ some env ↦ ok env | none ↦ no_env ]
    ]
  ]
]

unfoldable pub entries_for : Manifest → Text → Result Text (List SecretEntry)
entries_for m env = elim (lookup env m.envs) [
  | none ↦ err (lit "environment '" ++ env ++ lit "' not found in " ++ m.path)
  | some entries ↦ ok entries
]

unfoldable pub vars_for : Manifest → Text → KeyValues
vars_for m env = elim (lookup env m.vars) [ none ↦ [] | some plain ↦ plain ]

-- The secrets as (envvar, path), the plain variables, and the backend.
pub record Plan : Type 0 where
  pub wanted : KeyValues
  pub plain : KeyValues
  pub backend : BackendType

unfoldable pub is_local : BackendType → Bool
is_local local = true
is_local _ = false

unfoldable pub wanted_entries : List SecretEntry → KeyValues
wanted_entries [] = []
wanted_entries (e ∷ entries) = (e.env_var, e.path) ∷ wanted_entries entries

unfoldable pub wanted_raw : KeyValues → KeyValues
wanted_raw [] = []
wanted_raw ((key, envvar) ∷ raw) = (envvar, key) ∷ wanted_raw raw

unfoldable pub refuse_raw : KeyValues → BackendType → Result Text (Unit {0})
refuse_raw raw backend =
    if not (is_nil raw) && not (is_local backend)
    then err (
        lit "--secret names raw local-store keys; this manifest uses " ++ backend_type_name backend)
    else ok tt

-- What resolve_manifest returns or throws comes in; it is called only where the manifest is read.
unfoldable pub plan_exec : ExecArgs → Option Text → Result Text Manifest → Result Text Plan
plan_exec args override resolved =
    if is_some args.scope.project || is_some args.scope.env || is_nil args.raw
    then (do
      manifest ← resolved
      _ ← refuse_raw args.raw manifest.backend.type
      env ← resolve_env args.scope override (some manifest)
      entries ← entries_for manifest env
      ok (record {
        wanted = wanted_entries entries ++ wanted_raw args.raw;
        plain = vars_for manifest env;
        backend = manifest.backend.type;
      }))
    else ok (record { wanted = wanted_raw args.raw; plain = []; backend = local })
