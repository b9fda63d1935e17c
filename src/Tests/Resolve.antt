-- ===== src/Tests/Resolve.antt =====
-- A command inside of a project, and the arguments of a get.
use secretov.Prelude.{◌≡◌, refl, none, some, true, false, List, [], ◌∷◌}
use secretov.Prelude.Text.{Text, lit, text_eq, is_empty, starts_with}
use secretov.Client.Plan.{ScopeArgs}
use secretov.Client.Resolve.{
  ResolvedScope, Target, named, any_argument, parse_entry_args, nearest_manifest, scope_flag,
  flag_at, ends_entry,
}
use secretov.Client.Resolve.Arguments.{HasPositionals, parse_entry_args-HasPositionals}
use secretov.Manifest.Cloud.{local}
use secretov.Manifest.Files.{is_owned, find_upward, find_manifest_upward}
use secretov.Tests.Document.{read}
use secretov.Tests.Files.{fs}
use secretov.Tests.Manifest.{machine}

found : nearest_manifest machine fs (lit "/w") ≡ some (lit "m")
unfolding nearest_manifest find_manifest_upward find_upward is_owned lit
found = refl

abbrev in_dev : ScopeArgs
in_dev = record { project = none; env = some (lit "dev") }

abbrev key : Target
key = record { backend = local; path = lit "dev/app/KEY" }

abbrev scope : ResolvedScope
scope = record { env = lit "dev"; project = lit "app"; manifest = some read }

abbrev arguments : List Text
arguments = lit "-e" ∷ lit "dev" ∷ lit "KEY" ∷ []

entry_parsed :
    parse_entry_args true any_argument arguments false none (record { project = none; env = none })
    ≡ named (lit "KEY") in_dev
unfolding parse_entry_args flag_at scope_flag ends_entry lit text_eq is_empty starts_with
entry_parsed = refl

parse_entry_args-HasPositionals_example : HasPositionals true false arguments (lit "KEY" ∷ [])
parse_entry_args-HasPositionals_example =
    parse_entry_args-HasPositionals true arguments (record { project = none; env = none })
      (lit "KEY") in_dev entry_parsed
