-- ===== src/Tests/Exec.antt =====
-- exec with a secret of a small store, a plain variable and a flag.
use secretov.Prelude.{◌≡◌, refl, none, some, false, List, [], ◌∷◌}
use secretov.Prelude.Map.{Map}
use secretov.Prelude.Result.{Result, ok, err}
use secretov.Prelude.Text.{Text, lit, text_eq, find_byte}
use secretov.Backend.Stored.{stored_client}
use secretov.Client.Exec.Command.{no_options}
use secretov.Backend.{Client}
use secretov.Client.Plan.{ScopeArgs, a_flag, add_spec, take_flag, parse_exec_args}
use secretov.Manifest.Parse.{Manifest}
use secretov.Tests.Platform.{small}
use secretov.Tests.Stores.{held}

-- -e dev --secret dev/api/KEY=TOKEN -- sh
args_read :
    parse_exec_args a_flag
      (lit "-e" ∷ lit "dev" ∷ lit "--secret" ∷ lit "dev/api/KEY=TOKEN" ∷ lit "--" ∷ lit "sh" ∷ [])
      no_options
    ≡ ok (
      record {
        scope = record { project = none; env = some (lit "dev") };
        dry_run = false;
        raw = (lit "dev/api/KEY", lit "TOKEN") ∷ [];
      },
      lit "sh" ∷ [],
    )
unfolding parse_exec_args take_flag add_spec lit text_eq find_byte
args_read = refl

abbrev environment : Map Text
environment = (lit "SECRETOV_INJECTED", lit "OLD") ∷ []

-- There is no manifest.
abbrev no_manifest : Result Text (ScopeArgs → Result Text Manifest)
no_manifest = ok (λ scope. err (lit "no manifest"))

abbrev daemon : Client
daemon = stored_client small held

abbrev connected : Result Text Client
connected = ok daemon

abbrev typed : List Text
typed = lit "--secret" ∷ lit "dev/api/KEY=TOKEN" ∷ lit "--" ∷ lit "sh" ∷ lit "-l" ∷ []
