-- ===== src/Backend/Outcome.antt =====
-- Every outcome of a batch.
use secretov.Prelude.{◌≡◌, refl, subst, ap, inl, inr, Bool, true, false, List, [], ◌∷◌, arith}
use secretov.Prelude.Map.{Map}
use secretov.Prelude.Result.{Result, ok, err, Result-cases}
use secretov.Prelude.Sorting.{mem_text}
use secretov.Prelude.Text.{Text}
use secretov.Backend.{
  Client, Kind, missing, BackendError, Thrown, backend_error, exception, Fetched, group_from,
  is_batched, put_failure, put_fetched, find_in_scope, fetch_group, fetch_one, fetch_scope,
  fetch_grouped, fetch_groups, get_many,
}
use secretov.Backend.Single.{IsConsistent, IsAsSingle, get_many-IsAsSingle}

unfoldable pub is_kept : Kind → Bool
is_kept missing = true
is_kept _ = false

-- An error that is kept for its path, and does not end the batch.
unfoldable pub is_path_error : Thrown → Bool
is_path_error (exception what) = false
is_path_error (backend_error e) = is_kept e.kind

put_failure-err :
    (kind : Kind) (fetched : Fetched) (path : Text) (e : BackendError) {why : Thrown}
    → put_failure kind fetched path e ≡ err why
    → (backend_error e ≡ why) × (is_kept kind ≡ false)
unfolding put_failure is_kept
put_failure-err missing fetched path e h = absurd (cc h)
put_failure-err _ fetched path e h = (cc h, refl)

put_fetched-err :
    (fetched : Fetched) (path : Text) (outcome : Result Thrown Text) {why : Thrown}
    → put_fetched fetched path outcome ≡ err why
    → (outcome ≡ err why) × (is_path_error why ≡ false)
unfolding put_fetched is_path_error
put_fetched-err fetched path (ok value) h = absurd (cc h)
put_fetched-err fetched path (err (exception what)) h = ground (arith, h)
put_fetched-err fetched path (err (backend_error e)) h =
    let (same, fatal) = put_failure-err e.kind fetched path e h in
    (ap err same, subst (λ why. is_path_error why ≡ false) same fatal)

fetch_group-err :
    (fetch_path : Text → Result Thrown Text) (group : List Text) (fetched : Fetched) (why : Thrown)
    → fetch_group fetch_path group fetched ≡ err why
    → (path : Text) × (before : Fetched) × (put_fetched before path (fetch_path path) ≡ err why)
unfolding fetch_group
fetch_group-err fetch_path [] fetched why h = absurd (cc h)
fetch_group-err fetch_path (path ∷ group) fetched why h =
    elim (Result-cases (put_fetched fetched path (fetch_path path))) [
      | inr (e, f) ↦ (path, fetched, ground (arith, f, h))
      | inl (later, f) ↦ fetch_group-err fetch_path group later why (ground (arith, f, h))
    ]

-- A path that is looked for in a scope never ends the batch.
find_in_scope_kept :
    (scope : Map Text) (path : Text) (fetched : Fetched) (why : Thrown)
    → ¬ (put_fetched fetched path (find_in_scope scope path) ≡ err why)
unfolding find_in_scope put_fetched put_failure
find_in_scope_kept scope path fetched why h = ground (arith, h)

module _ (client : Client) where
  -- A getprefix fails, or a get does, with an error that is not kept for its path.
  pub data IsCause : Thrown → Type 0 where
    of_scope : (why : Thrown) (prefix : Text) → fetch_scope client prefix ≡ err why → IsCause why
    of_path :
        (why : Thrown) (path : Text)
        → fetch_one client path ≡ err why
        → is_path_error why ≡ false
        → IsCause why

  fetch_grouped-err :
      (batched : Bool) (prefix : Text) (group : List Text) (fetched : Fetched) (why : Thrown)
      → fetch_grouped client batched prefix group fetched ≡ err why
      → IsCause why
  unfolding fetch_grouped
  fetch_grouped-err false prefix group fetched why h =
      let (path, before, f) = fetch_group-err (fetch_one client) group fetched why h in
      let (failing, fatal) = put_fetched-err before path (fetch_one client path) f in
      of_path why path failing fatal
  fetch_grouped-err true prefix group fetched why h =
      elim (Result-cases (fetch_scope client prefix)) [
        | inr (e, f) ↦ of_scope why prefix (ground (arith, f, h))
        | inl (scope, f) ↦
            let (path, before, g) =
              fetch_group-err (find_in_scope scope) group fetched why (ground (arith, f, h)) in
            absurd (find_in_scope_kept scope path before why g)
      ]

  fetch_groups-err :
      (groups : Map (List Text)) (fetched : Fetched) (why : Thrown)
      → fetch_groups client groups fetched ≡ err why
      → IsCause why
  unfolding fetch_groups
  fetch_groups-err [] fetched why h = absurd (cc h)
  fetch_groups-err ((prefix, group) ∷ groups) fetched why h =
      elim (Result-cases (fetch_grouped client (is_batched prefix group) prefix group fetched)) [
        | inr (e, f) ↦
            fetch_grouped-err (is_batched prefix group) prefix group fetched why
              (ground (arith, f, h))
        | inl (later, f) ↦ fetch_groups-err groups later why (ground (arith, f, h))
      ]

  pub data IsOutcome (paths : List Text) : Result Thrown Fetched → Type 0 where
    fetches :
        (fetched : Fetched)
        → ((path : Text) → mem_text path paths ≡ true → IsAsSingle client fetched path)
        → IsOutcome paths (ok fetched)
    throws : (why : Thrown) → IsCause why → IsOutcome paths (err why)

  -- Where a reply to getprefix gives each key with the prefix what a reply to get gives it, a batch
  -- holds for each of its paths exactly what a single request for that path gives, the value or the
  -- error that the secret is missing: the requests that are saved change nothing. It throws only
  -- what a getprefix throws, or an error of a get that does not say that the secret is missing.
  pub get_many-IsOutcome :
      (c : IsConsistent client) (paths : List Text) → IsOutcome paths (get_many client paths)
  unfolding get_many
  get_many-IsOutcome c paths = elim (Result-cases (get_many client paths)) [
    | inl (fetched, e) ↦ rw e (fetches fetched (get_many-IsAsSingle client c paths e))
    | inr (why, e) ↦ rw e (throws why (fetch_groups-err (group_from [] paths) _ why e))
  ]
