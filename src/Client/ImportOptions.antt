-- ===== src/Client/ImportOptions.antt =====
-- The arguments of secretov import (cmd_import of src/client.cpp).
use secretov.Prelude.{
  Option, some, Bool, true, not, ◌||◌, ◌&&◌, List, [], ◌∷◌, ◌++◌, is_some, if◌then◌else◌,
}
use secretov.Prelude.Result.{Result, ok, err, ◌>>=◌}
use secretov.Prelude.Text.{Text, lit, text_eq, is_empty, starts_with}
use secretov.Client.Plan.{ScopeArgs}

pub record ImportArgs : Type 0 where
  pub scope : ScopeArgs
  pub overwrite : Bool
  -- none: ".env"
  pub file : Option Text

-- What the next argument is: an option or the file, or the value of the flag before it.
pub data Awaiting : Type 0 where
  an_option : Awaiting
  the_project the_env : Text → Awaiting

-- One argument that is no value.
unfoldable pub take_option : Text → ImportArgs → Result Text (Awaiting × ImportArgs)
take_option arg args =
    if text_eq arg (lit "-p") || text_eq arg (lit "--project")
    then ok (the_project arg, args)
    else if text_eq arg (lit "-e") || text_eq arg (lit "--env")
    then ok (the_env arg, args)
    else if text_eq arg (lit "--overwrite")
    then ok (an_option, record args { overwrite = true })
    else if not (is_empty arg) && (not (starts_with (lit "-") arg) && not (is_some args.file))
    then ok (an_option, record args { file = some arg })
    else err (lit "unexpected argument '" ++ (arg ++ lit "'"))

unfoldable pub parse_import_args : Awaiting → List Text → ImportArgs → Result Text ImportArgs
parse_import_args an_option [] args = ok args
parse_import_args (the_project flag) [] args = err (flag ++ lit " requires a value")
parse_import_args (the_env flag) [] args = err (flag ++ lit " requires a value")
parse_import_args (the_project flag) (arg ∷ rest) args =
    parse_import_args an_option rest
      (record args { scope = record { project = some arg; env = args.scope.env } })
parse_import_args (the_env flag) (arg ∷ rest) args =
    parse_import_args an_option rest
      (record args { scope = record { project = args.scope.project; env = some arg } })
parse_import_args an_option (arg ∷ rest) args = do
  next ← take_option arg args
  parse_import_args next.0 rest next.1
