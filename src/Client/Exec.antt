-- ===== src/Client/Exec.antt =====
-- secretov exec: the fetch, and the child's environment (cmd_exec of src/client.cpp). Everything is
-- fetched before the environment is changed.
pub mod Settings
pub mod Environment
pub mod Command
use secretov.Prelude.{
  Option, none, some, Bool, true, false, not, List, [], ◌∷◌, ◌++◌, map, is_nil, if◌then◌else◌,
}
use secretov.Prelude.Map.{Map, lookup, insert}
use secretov.Prelude.Result.{Result, ok, err, ◌>>=◌}
use secretov.Prelude.Sorting.{mem_text}
use secretov.Prelude.Text.{Text, lit, is_empty}
use secretov.Backend.{
  BackendError, missing, Kind, Thrown, backend_error, exception, Fetched, Client, get_many,
}
use secretov.Client.Plan.{Plan}
use secretov.Manifest.Parse.{KeyValues}
use secretov.Manifest.Trust.{join}

abbrev pub injected_var : Text
injected_var = lit "SECRETOV_INJECTED"

unfoldable pub is_missing : Kind → Bool
is_missing missing = true
is_missing _ = false

-- The paths that are missing; a failure of another kind is thrown.
unfoldable pub missing_paths : Map BackendError → KeyValues → Result Thrown (List Text)
missing_paths failures [] = ok []
missing_paths failures ((envvar, path) ∷ wanted) = elim (lookup path failures) [
  | none ↦ missing_paths failures wanted
  | some e ↦
      if not (is_missing e.kind)
      then err (backend_error e)
      else do later ← missing_paths failures wanted; ok (path ∷ later)
]

unfoldable pub require_found : List Text → Result Thrown (Unit {0})
require_found paths =
    if is_nil paths
    then ok tt
    else err (exception (lit "missing secrets: " ++ join paths (lit ", ")))

-- The process's environment, and the names that were set in it.
pub record Injection : Type 0 where
  pub environment : Map Text
  pub injected : List Text

-- An exception leaves what has been set.
pub record Injected : Type 0 where
  pub state : Injection
  pub result : Result Thrown (Unit {0})

unfoldable pub added_name : Text → List Text → List Text
added_name name injected = if mem_text name injected then injected else injected ++ (name ∷ [])

-- What comes behind a step that has not thrown.
unfoldable pub and_then : Injected → (Injection → Injected) → Injected
and_then run next = elim run.result [ err e ↦ run | ok _ ↦ next run.state ]

unfoldable pub with_name : Text → Injection → Injected
with_name name state = record {
  state = record state { injected = added_name name state.injected };
  result = ok tt;
}

unfoldable pub inherited_names : Option Text → Text
inherited_names none = []
inherited_names (some names) = if is_empty names then [] else names ++ lit ","

-- setenv fails for some names (an empty one, one with '='), and without memory.
module _ (setenv_fails : Text → Bool) where
  unfoldable pub export_env_var : Text → Text → Injection → Injected
  export_env_var name value state =
      if setenv_fails name
      then record {
        state = state;
        result = err (exception (lit "setenv '" ++ name ++ lit "' failed"));
      }
      else record {
        state = record state { environment = insert name value state.environment };
        result = ok tt;
      }

  unfoldable pub inject_one : Text → Text → Injection → Injected
  inject_one envvar value state = and_then (export_env_var envvar value state) (with_name envvar)

  unfoldable pub inject_plain : KeyValues → Injection → Injected
  inject_plain [] state = record { state = state; result = ok tt }
  inject_plain ((envvar, value) ∷ plain) state =
      and_then (inject_one envvar value state) (inject_plain plain)

  -- at throws for a path that has no value.
  unfoldable pub inject_value : Text → Option Text → Injection → Injected
  inject_value envvar none state = record {
    state = state;
    result = err (exception (lit "map::at"));
  }
  inject_value envvar (some value) state = inject_one envvar value state

  unfoldable pub inject_wanted : Map Text → KeyValues → Injection → Injected
  inject_wanted values [] state = record { state = state; result = ok tt }
  inject_wanted values ((envvar, path) ∷ wanted) state =
      and_then (inject_value envvar (lookup path values) state) (inject_wanted values wanted)

  unfoldable pub record_injected : Injection → Injected
  record_injected state =
      if is_nil state.injected
      then record { state = state; result = ok tt }
      else export_env_var injected_var
          (inherited_names (lookup injected_var state.environment) ++ join state.injected (lit ","))
          state

  unfoldable pub inject : Plan → Map Text → Map Text → Injected
  inject plan values environment =
      and_then
        (and_then (inject_plain plan.plain (record { environment = environment; injected = [] }))
          (inject_wanted values plan.wanted))
        record_injected

  unfoldable pub fetch_wanted : Client → Plan → Result Thrown Fetched
  fetch_wanted client plan = do
    fetched ← get_many client (map (λ (w : Text × Text). w.1) plan.wanted)
    gone ← missing_paths fetched.failures plan.wanted
    _ ← require_found gone
    ok fetched

  -- From the fetch to execvp.
  unfoldable pub exec_plan : Client → Plan → Map Text → Injected
  exec_plan client plan environment = elim (fetch_wanted client plan) [
    | err e ↦ record { state = record { environment = environment; injected = [] }; result = err e }
    | ok fetched ↦ inject plan fetched.values environment
  ]

-- What --dry-run prints.
unfoldable pub dry_run_lines : Plan → List Text
dry_run_lines plan =
    map (λ (v : Text × Text). v.0 ++ lit " = " ++ v.1) plan.plain
    ++ map (λ (w : Text × Text). w.0 ++ lit " <- " ++ w.1) plan.wanted
