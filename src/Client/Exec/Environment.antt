-- ===== src/Client/Exec/Environment.antt =====
-- The environment of the child of secretov exec.
use secretov.Prelude.{
  ◌≡◌, refl, sym, ap, ◌∙◌, ◌⊎◌, inl, inr, Option, some, Bool, true, false, not, ◌&&◌, List, [], ◌∷◌,
  ◌++◌, map, is_nil, if◌then◌else◌, arith, Bool-cases,
}
use secretov.Prelude.Map.{Map, lookup, lookup-insert}
use secretov.Prelude.Result.{ok, err, Result-cases, Ensures, returned, ensured, Ensures-bind, holds}
use secretov.Prelude.Sorting.{mem_text}
use secretov.Prelude.Text.{Text, lit, text_eq, text_eq_refl}
use secretov.Backend.{BackendError, backend_error, Thrown, Fetched, Client, fetch_one, get_many}
use secretov.Backend.Single.{IsConsistent, IsAsSingle, get_many-IsAsSingle}
use secretov.Client.Exec.{
  injected_var, missing_paths, require_found, Injection, Injected, and_then, inherited_names,
  export_env_var, record_injected, inject, fetch_wanted, exec_plan,
}
use secretov.Client.Plan.{Plan}
use secretov.Manifest.Parse.{KeyValues}
use secretov.Manifest.Trust.{join}
use secretov.Client.Exec.Settings.{
  latest, names_set, Makes, made, stopped, AreHeld, all_held, is_held, Makes-inject,
}

-- The wanted variables with the values that single requests give for their paths.
pub data AreFetched (client : Client) : KeyValues → KeyValues → Type 0 where
  all_fetched : AreFetched client [] []
  is_fetched :
      {envvar path value : Text} {wanted settings : KeyValues}
      → fetch_one client path ≡ ok value
      → AreFetched client wanted settings
      → AreFetched client ((envvar, path) ∷ wanted) ((envvar, value) ∷ settings)

abbrev pub paths_of : KeyValues → List Text
paths_of wanted = map (λ (w : Text × Text). w.1) wanted

none_missing : (paths : List Text) → require_found paths ≡ ok tt → paths ≡ []
unfolding require_found
none_missing [] h = refl
none_missing (path ∷ paths) h = absurd (cc h)

collected :
    (client : Client) (fetched : Fetched) (wanted : KeyValues)
    → missing_paths fetched.failures wanted ≡ ok []
    → ((path : Text) → mem_text path (paths_of wanted) ≡ true → IsAsSingle client fetched path)
    → (settings : KeyValues) × AreHeld fetched.values wanted settings
      × AreFetched client wanted settings
unfolding missing_paths IsAsSingle
collected client fetched [] h single = ([], all_held, all_fetched)
collected client fetched ((envvar, path) ∷ wanted) h single =
    elim (single path (ground (arith, text_eq_refl path))) [
      | inl (value, one, held, not_failed) ↦
          let (settings, are_held, are_fetched) =
            collected client fetched wanted (ground (arith, h, not_failed))
              (λ p a. single p (ground (arith, a))) in
          ((envvar, value) ∷ settings, is_held held are_held, is_fetched one are_fetched)
      | inr (e, one, not_held, gone) ↦ ground (arith, h, gone)
    ]

some_fails :
    (client : Client) (fetched : Fetched) (wanted : KeyValues)
    → ((path : Text) → mem_text path (paths_of wanted) ≡ true → IsAsSingle client fetched path)
    → (missing_paths fetched.failures wanted ≡ ok [])
      ⊎ (path : Text) × (why : BackendError) × (mem_text path (paths_of wanted) ≡ true)
        × (fetch_one client path ≡ err (backend_error why))
unfolding missing_paths IsAsSingle
some_fails client fetched [] single = inl refl
some_fails client fetched ((envvar, path) ∷ wanted) single =
    elim (single path (ground (arith, text_eq_refl path))) [
      | inr (why, one, not_held, gone) ↦ inr (path, why, ground (arith, text_eq_refl path), one)
      | inl (value, one, held, not_failed) ↦
          elim (some_fails client fetched wanted (λ p a. single p (ground (arith, a)))) [
            | inl m ↦ inl (ground (arith, m, not_failed))
            | inr (p, why, a, failing) ↦ inr (p, why, ground (arith, a), failing)
          ]
    ]

-- Why nothing is started: the batch fails, or a single request for a wanted path does.
pub data IsUnfetched (client : Client) (plan : Plan) : Thrown → Type 0 where
  batch_fails :
      (e : Thrown) → get_many client (paths_of plan.wanted) ≡ err e → IsUnfetched client plan e
  path_fails :
      (e : Thrown) (path : Text) (why : BackendError)
      → mem_text path (paths_of plan.wanted) ≡ true
      → fetch_one client path ≡ err (backend_error why)
      → IsUnfetched client plan e

-- The names that are set, as SECRETOV_INJECTED lists them: behind what it held.
unfoldable pub listed : Option Text → List Text → Text
listed found names = inherited_names found ++ join names (lit ",")

-- What a name is in the child's environment when `settings` have been made in this order.
unfoldable pub child_value : Map Text → KeyValues → Text → Option Text
child_value environment settings name =
    let names = names_set [] settings in
    let found = λ (n : Text). latest n (lookup n environment) settings in
    if not (is_nil names) && text_eq injected_var name
    then some (listed (found injected_var) names)
    else found name

unlisted :
    (environment : Map Text) (settings : KeyValues) (name : Text)
    → is_nil (names_set [] settings) ≡ true
    → latest name (lookup name environment) settings ≡ child_value environment settings name
unfolding child_value
unlisted environment settings name h = rw h refl

with_list :
    (environment : Map Text) (settings : KeyValues) (name : Text) (names : List Text)
    (inherited found : Option Text)
    → is_nil names ≡ false
    → names ≡ names_set [] settings
    → inherited ≡ latest injected_var (lookup injected_var environment) settings
    → found ≡ latest name (lookup name environment) settings
    → (if text_eq injected_var name then some (listed inherited names) else found)
      ≡ child_value environment settings name
unfolding child_value
with_list environment settings name names inherited found e n i f = rw (i, f, sym n, e) refl

-- The run of exec up to execvp: before it, or with all secrets at hand.
pub data IsRun (setenv_fails : Text → Bool) (client : Client) (plan : Plan) (environment : Map Text)
    : Injected → Type 0 where
  untouched :
      (e : Thrown)
      → IsUnfetched client plan e
      → IsRun setenv_fails client plan environment
          (record { state = record { environment = environment; injected = [] }; result = err e })
  cut_off :
      (settings : KeyValues) (after : Injection) (e : Thrown) (name : Text)
      → AreFetched client plan.wanted settings
      → setenv_fails name ≡ true
      → IsRun setenv_fails client plan environment (record { state = after; result = err e })
  complete :
      (settings : KeyValues) (after : Injection)
      → AreFetched client plan.wanted settings
      → ((name : Text)
          → lookup name after.environment ≡ child_value environment (plan.plain ++ settings) name)
      → IsRun setenv_fails client plan environment (record { state = after; result = ok tt })

module _ (setenv_fails : Text → Bool) (client : Client) (plan : Plan) (environment : Map Text) where
  recorded :
      (settings : KeyValues) (run : Injected)
      → AreFetched client plan.wanted settings
      → Makes setenv_fails
          (plan.plain ++ settings)
          (record { environment = environment; injected = [] })
          run
      → IsRun setenv_fails client plan environment (and_then run (record_injected setenv_fails))
  unfolding and_then record_injected export_env_var listed
  recorded settings run f (stopped after e name g) = cut_off settings after e name f g
  recorded settings run f (made after env names) = elim (Bool-cases (is_nil after.injected)) [
    | inl e ↦
        rw (record_injected, e)
          (complete settings after f (λ name.
            env name
            ∙ unlisted environment (plan.plain ++ settings) name (ap is_nil (sym names) ∙ e)))
    | inr e ↦ elim (Bool-cases (setenv_fails injected_var)) [
      | inl g ↦ rw (record_injected, e, g) (cut_off settings _ _ injected_var f g)
      | inr g ↦
          rw (record_injected, e, g)
            (complete settings _ f (λ name.
              lookup-insert injected_var name
                (listed (lookup injected_var after.environment) after.injected) after.environment
              ∙ with_list environment (plan.plain ++ settings) name after.injected
                  (lookup injected_var after.environment) (lookup name after.environment) e names
                  (env injected_var) (env name)))
    ]
  ]

  fetch_wanted-IsAsSingle :
      (c : IsConsistent client)
      → Ensures
          (λ fetched.
            (settings : KeyValues) × AreHeld fetched.values plan.wanted settings
            × AreFetched client plan.wanted settings)
          (fetch_wanted setenv_fails client plan)
  unfolding fetch_wanted require_found
  fetch_wanted-IsAsSingle c =
      Ensures-bind (ensured (get_many client (paths_of plan.wanted)) (λ fetched e. e)) λ fetched e.
        Ensures-bind (ensured (missing_paths fetched.failures plan.wanted) (λ gone m. m)) λ gone m.
          Ensures-bind (ensured (require_found gone) (λ _ r. r)) λ _ r. returned fetched (
            collected client fetched plan.wanted (m ∙ ap ok (none_missing gone r))
              (λ p a. get_many-IsAsSingle client c (paths_of plan.wanted) e p a))

  fetch_wanted-IsUnfetched :
      IsConsistent client
      → (e : Thrown) → fetch_wanted setenv_fails client plan ≡ err e
      → IsUnfetched client plan e
  unfolding fetch_wanted require_found
  fetch_wanted-IsUnfetched c e h = elim (Result-cases (get_many client (paths_of plan.wanted))) [
    | inr (why, g) ↦ batch_fails e (ground (arith, g, h))
    | inl (fetched, g) ↦
        elim (some_fails client fetched plan.wanted
          (λ p a. get_many-IsAsSingle client c (paths_of plan.wanted) g p a)) [
            | inl m ↦ ground (arith, h, g, m)
            | inr (path, why, a, failing) ↦ path_fails e path why a failing
          ]
  ]

  -- A run of exec up to the start of the program has one of three outcomes, where the replies to
  -- get and getprefix agree. It throws and leaves the environment as it was, which it does only
  -- where the batch of all wanted paths fails or a single request for one of them does. Or, with
  -- each wanted path read as a single request gives it, setenv fails for a name, and the program
  -- is not started. Or all is set: each name has the last value that the plain variables and then
  -- the wanted secrets, in their order, give it, a name that none of them gives is as it was, and
  -- SECRETOV_INJECTED lists the names behind those it held.
  pub exec_plan-IsRun :
      (c : IsConsistent client)
      → IsRun setenv_fails client plan environment (exec_plan setenv_fails client plan environment)
  unfolding exec_plan inject
  exec_plan-IsRun c = elim (Result-cases (fetch_wanted setenv_fails client plan)) [
    | inr (e, f) ↦ rw (exec_plan, f) (untouched e (fetch_wanted-IsUnfetched c e f))
    | inl (fetched, f) ↦
        let (settings, are_held, are_fetched) = holds (fetch_wanted-IsAsSingle c) fetched f in
        rw (exec_plan, f)
          (recorded settings _ are_fetched (Makes-inject setenv_fails plan are_held))
  ]
