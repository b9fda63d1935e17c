-- ===== src/Client/Commands/Printed.antt =====
-- What get prints.
use secretov.Prelude.{◌≡◌, ap, ◌∙◌, refl, none, true, false, List, [], ◌∷◌, arith}
use secretov.Prelude.Map.{lookup, insert, emplace}
use secretov.Prelude.Result.{Result, ok, err, ◌>>=◌}
use secretov.Prelude.Text.{Text, text_eq_refl}
use secretov.Backend.{
  BackendError, Kind, missing, Thrown, backend_error, exception, Client, Fetched, get_many,
  fetch_one, fetch_group, fetch_grouped, fetch_groups, group_from, group_or_empty, add_to_group,
  add_path, is_batched, put_fetched, put_failure, prefix_of, open_backend,
}
use secretov.Client.Commands.{Exit, done, no_scope, on_target, print_value, get_target, cmd_get}
use secretov.Client.Plan.{ScopeArgs}
use secretov.Client.Resolve.{Target, named, any_argument, parse_entry_args}
use secretov.Manifest.Cloud.{local}

unfoldable pub printed : Result Thrown Text → Result Thrown Exit
printed (ok value) = ok (done (value ∷ []))
printed (err e) = err e

put_failure-printed :
    (kind : Kind) (path : Text) (e : BackendError)
    → (put_failure kind (record { values = []; failures = [] }) path e >>= print_value path)
      ≡ err (backend_error e)
unfolding put_failure print_value emplace insert lookup
put_failure-printed missing path e = refl
put_failure-printed _ path e = refl

put_fetched-printed :
    (path : Text) (fetched : Result Thrown Text)
    → (put_fetched (record { values = []; failures = [] }) path fetched >>= print_value path)
      ≡ printed fetched
unfolding put_fetched print_value printed emplace insert lookup
put_fetched-printed path (ok value) = rw (print_value, text_eq_refl path) refl
put_fetched-printed path (err (exception what)) = refl
put_fetched-printed path (err (backend_error e)) = put_failure-printed e.kind path e

unit_right {ℓ} : {E : Type 0} {A : Type ℓ} (m : Result E A) → (m >>= λ a. ok a) ≡ m
unit_right (ok a) = refl
unit_right (err e) = refl

never_batched : (prefix path : Text) → is_batched prefix (path ∷ []) ≡ false
unfolding is_batched
never_batched prefix path = ground arith

module _ (client : Client) where
  get_one :
      (path : Text)
      → get_many client (path ∷ [])
        ≡ put_fetched (record { values = []; failures = [] }) path (fetch_one client path)
  unfolding get_many fetch_groups fetch_grouped fetch_group group_from add_path add_to_group
      group_or_empty insert lookup
  get_one path = rw (never_batched (prefix_of path) path) (
      unit_right (
        put_fetched (record { values = []; failures = [] }) path (fetch_one client path)
        >>= λ later. ok later)
      ∙ unit_right
          (put_fetched (record { values = []; failures = [] }) path (fetch_one client path)))

  get_target-printed :
      (path : Text)
      → get_target (ok client) (record { backend = local; path = path })
        ≡ printed (fetch_one client path)
  unfolding get_target open_backend
  get_target-printed path =
      ap (λ (m : Result Thrown Fetched). m >>= print_value path) (get_one path)
      ∙ put_fetched-printed path (fetch_one client path)

  -- A get whose arguments name an entry of the local store prints the value that one request for
  -- its path gives, and nothing else; and it throws what that request throws.
  cmd_get-printed :
      (resolve : ScopeArgs → Text → Result Text Target) (args : List Text) (name path : Text)
      (scope : ScopeArgs)
      → parse_entry_args true any_argument args false none no_scope ≡ named name scope
      → resolve scope name ≡ ok (record { backend = local; path = path })
      → cmd_get resolve (ok client) args ≡ printed (fetch_one client path)
  unfolding cmd_get on_target
  cmd_get-printed resolve args name path scope h r = rw (on_target, h, r) (get_target-printed path)
