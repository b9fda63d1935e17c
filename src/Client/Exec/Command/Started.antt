-- ===== src/Client/Exec/Command/Started.antt =====
-- What the program that exec becomes can rely on.
use secretov.Prelude.{◌≡◌, ℕ, Option, none, Bool, true, false, List, [], ◌∷◌, ◌++◌, ltb}
use secretov.Prelude.Map.{Map, lookup}
use secretov.Prelude.Result.{Result, ok}
use secretov.Prelude.Text.{Text}
use secretov.Backend.{Client, open_backend}
use secretov.Client.Exec.{dry_run_lines}
use secretov.Client.Exec.Command.{exits, throws, ExecRun, no_options, execute, cmd_exec}
use secretov.Client.Exec.Environment.{AreFetched, child_value}
use secretov.Client.Plan.{ScopeArgs, ExecArgs, a_flag, Plan, parse_exec_args, plan_exec}
use secretov.Manifest.Parse.{KeyValues, Manifest}

module _ (setenv_fails : Text → Bool) (execvp_error : Text → Option Text)
    (resolved : Result Text (ScopeArgs → Result Text Manifest)) (override : Option Text)
    (client : Result Text Client) (environment : Map Text) where
  -- The plan of the parsed arguments.
  pub record IsPlanned (args : ExecArgs) (plan : Plan) : Type 0 where
    resolve : ScopeArgs → Result Text Manifest
    below : resolved ≡ ok resolve
    planned : plan_exec args override (resolve args.scope) ≡ ok plan

  -- How exec with these arguments can end.
  pub data IsExec (argv : List Text) : ExecRun → Type 1 where
    refused :
        (status : ℕ) (told : Option Text)
        → ltb 0 status ≡ true
        → IsExec argv
            (record { environment = environment; stdout = []; ending = exits status told })
    thrown :
        (what : Text)
        → IsExec argv (record { environment = environment; stdout = []; ending = throws what })
    printed :
        {args : ExecArgs} {program : List Text} {plan : Plan}
        → parse_exec_args a_flag argv no_options ≡ ok (args, program)
        → args.dry_run ≡ true
        → IsPlanned args plan
        → IsExec argv (record {
          environment = environment;
          stdout = dry_run_lines plan;
          ending = exits 0 none;
        })
    cut_short :
        (after : Map Text) (told : Option Text) (name : Text)
        → setenv_fails name ≡ true
        → IsExec argv (record { environment = after; stdout = []; ending = exits 1 told })
    set_up :
        {args : ExecArgs} {program : Text} {rest : List Text} {plan : Plan} {backend : Client}
        (settings : KeyValues) (after : Map Text)
        → parse_exec_args a_flag argv no_options ≡ ok (args, program ∷ rest)
        → args.dry_run ≡ false
        → IsPlanned args plan
        → open_backend plan.backend client ≡ ok backend
        → AreFetched backend plan.wanted settings
        → ((name : Text)
            → lookup name after ≡ child_value environment (plan.plain ++ settings) name)
        → IsExec argv (record {
          environment = after;
          stdout = [];
          ending = execute execvp_error program rest;
        })

  abbrev run : List Text → ExecRun
  run = cmd_exec setenv_fails execvp_error resolved override client environment
