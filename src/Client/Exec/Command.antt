-- ===== src/Client/Exec/Command.antt =====
-- cmd_exec of src/client.cpp as a whole: what it prints, its status, and the program it becomes.
pub mod Started
use secretov.Prelude.{ℕ, Option, none, some, Bool, false, List, [], ◌∷◌, ◌++◌, if◌then◌else◌}
use secretov.Prelude.Map.{Map}
use secretov.Prelude.Result.{Result, ok, err}
use secretov.Prelude.Text.{Text, lit}
use secretov.Backend.{Thrown, backend_error, exception, Client, open_backend}
use secretov.Client.Exec.{Injected, exec_plan, dry_run_lines}
use secretov.Client.Plan.{ScopeArgs, ExecArgs, a_flag, Plan, parse_exec_args, plan_exec}
use secretov.Manifest.Parse.{Manifest}

-- A status with what is told of an exception (none: the usage alone, or nothing); an exception that
-- is left to main; or execvp of a program and its arguments, which does not return.
pub data Ending : Type 0 where
  exits : ℕ → Option Text → Ending
  throws : Text → Ending
  becomes : Text → List Text → Ending

-- The environment of the process at its end.
pub record ExecRun : Type 0 where
  pub environment : Map Text
  pub stdout : List Text
  pub ending : Ending

abbrev pub no_options : ExecArgs
no_options = record { scope = record { project = none; env = none }; dry_run = false; raw = [] }

unfoldable pub what_of : Thrown → Text
what_of (backend_error e) = e.what
what_of (exception what) = what

-- `execvp_error`: why execvp of a program returns, if it does.
unfoldable pub execute : (Text → Option Text) → Text → List Text → Ending
execute execvp_error program args = elim (execvp_error program) [
  | none ↦ becomes program args
  | some why ↦ exits 1 (some (lit "cannot run '" ++ (program ++ (lit "': " ++ why))))
]

-- `setenv_fails`: for these names setenv fails. `resolved`: resolve_manifest below the resolved
-- paths, or what resolving them throws. `override`: SECRETOV_ENV. `client`: the daemon client, or
-- what its constructor throws. `environment`: what the process inherits.
module _ (setenv_fails : Text → Bool) (execvp_error : Text → Option Text)
    (resolved : Result Text (ScopeArgs → Result Text Manifest)) (override : Option Text)
    (client : Result Text Client) (environment : Map Text) where
  abbrev pub ends : Ending → ExecRun
  ends ending = record { environment = environment; stdout = []; ending = ending }

  unfoldable pub start_program : Text → List Text → Injected → ExecRun
  start_program program rest run = record {
    environment = run.state.environment;
    stdout = [];
    ending = elim run.result [
      | err e ↦ exits 1 (some (what_of e))
      | ok _ ↦ execute execvp_error program rest
    ];
  }

  unfoldable pub run_plan : Text → List Text → Plan → ExecRun
  run_plan program rest plan = elim (open_backend plan.backend client) [
    | err e ↦ ends (exits 1 (some (what_of e)))
    | ok backend ↦ start_program program rest (exec_plan setenv_fails backend plan environment)
  ]

  unfoldable pub print_plan : Plan → ExecRun
  print_plan plan = record {
    environment = environment;
    stdout = dry_run_lines plan;
    ending = exits 0 none;
  }

  unfoldable pub with_plan : ExecArgs → (Plan → ExecRun) → ExecRun
  with_plan args act = elim resolved [
    | err what ↦ ends (throws what)
    | ok resolve ↦ elim (plan_exec args override (resolve args.scope)) [
      | err what ↦ ends (exits 1 (some what))
      | ok plan ↦ act plan
    ]
  ]

  -- The program may be missing only from a dry run.
  unfoldable pub exec_parsed : ExecArgs × List Text → ExecRun
  exec_parsed (args, []) = if args.dry_run then with_plan args print_plan else ends (exits 2 none)
  exec_parsed (args, program ∷ rest) =
      if args.dry_run then with_plan args print_plan else with_plan args (run_plan program rest)

  unfoldable pub cmd_exec : List Text → ExecRun
  cmd_exec argv = elim (parse_exec_args a_flag argv no_options) [
    | err what ↦ ends (exits 2 (some what))
    | ok parsed ↦ exec_parsed parsed
  ]
