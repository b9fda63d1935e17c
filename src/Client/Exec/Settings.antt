-- ===== src/Client/Exec/Settings.antt =====
-- The settings that secretov exec makes, in order.
use secretov.Prelude.{
  ◌≡◌, refl, sym, ap, ◌∙◌, inl, inr, Option, some, Bool, true, List, [], ◌∷◌, ◌++◌, if◌then◌else◌,
  Bool-cases,
}
use secretov.Prelude.Map.{Map, lookup, lookup-insert}
use secretov.Prelude.Result.{ok, err}
use secretov.Prelude.Text.{Text, text_eq}
use secretov.Backend.{Thrown}
use secretov.Client.Exec.{
  Injection, Injected, added_name, and_then, with_name, export_env_var, inject_one, inject_plain,
  inject_value, inject_wanted,
}
use secretov.Client.Plan.{Plan}
use secretov.Manifest.Parse.{KeyValues}

-- The last value that a list of settings gives a name, or what there was.
abbrev pub latest : Text → Option Text → KeyValues → Option Text
latest name found [] = found
latest name found ((n, value) ∷ settings) =
    latest name (if text_eq n name then some value else found) settings

-- The names that are set, each where it is first set, behind those there were.
abbrev pub names_set : List Text → KeyValues → List Text
names_set names [] = names
names_set names ((n, value) ∷ settings) = names_set (added_name n names) settings

latest-append :
    (name : Text) (a b : KeyValues) (found : Option Text)
    → latest name found (a ++ b) ≡ latest name (latest name found a) b
latest-append name [] b found = refl
latest-append name ((n, value) ∷ a) b found =
    latest-append name a b (if text_eq n name then some value else found)

names_set-append :
    (a b : KeyValues) (names : List Text)
    → names_set names (a ++ b) ≡ names_set (names_set names a) b
names_set-append [] b names = refl
names_set-append ((n, value) ∷ a) b names = names_set-append a b (added_name n names)

-- All settings were made, or setenv has failed for a name and stopped the run.
pub data Makes (fails : Text → Bool) (settings : KeyValues) (before : Injection)
    : Injected → Type 0 where
  made :
      (after : Injection)
      → ((name : Text)
          → lookup name after.environment ≡ latest name (lookup name before.environment) settings)
      → after.injected ≡ names_set before.injected settings
      → Makes fails settings before (record { state = after; result = ok tt })
  stopped :
      (after : Injection) (e : Thrown) (name : Text)
      → fails name ≡ true
      → Makes fails settings before (record { state = after; result = err e })

Makes-behind :
    {fails : Text → Bool} (a : KeyValues) {b : KeyValues} {before after : Injection}
    {run : Injected}
    → ((name : Text)
        → lookup name after.environment ≡ latest name (lookup name before.environment) a)
    → after.injected ≡ names_set before.injected a
    → Makes fails b after run
    → Makes fails (a ++ b) before run
Makes-behind a env names (stopped end e name f) = stopped end e name f
Makes-behind a {b} {before} env names (made end env' names') =
    made end
      (λ name.
        env' name
        ∙ ap (λ found. latest name found b) (env name)
        ∙ sym (latest-append name a b (lookup name before.environment)))
      (names' ∙ ap (λ known. names_set known b) names ∙ sym (names_set-append a b before.injected))

Makes-and_then :
    {fails : Text → Bool} {a b : KeyValues} {before : Injection} {run : Injected}
    {next : Injection → Injected}
    → Makes fails a before run
    → ((state : Injection) → Makes fails b state (next state))
    → Makes fails (a ++ b) before (and_then run next)
unfolding and_then
Makes-and_then (stopped after e name f) h = stopped after e name f
Makes-and_then {a} (made after env names) h = Makes-behind a env names (h after)

-- The wanted variables with the values that are held for their paths.
pub data AreHeld (held : Map Text) : KeyValues → KeyValues → Type 0 where
  all_held : AreHeld held [] []
  is_held :
      {envvar path value : Text} {wanted settings : KeyValues}
      → lookup path held ≡ some value
      → AreHeld held wanted settings
      → AreHeld held ((envvar, path) ∷ wanted) ((envvar, value) ∷ settings)

module _ (setenv_fails : Text → Bool) where
  inject_one-Makes :
      (envvar value : Text) (state : Injection)
      → Makes setenv_fails ((envvar, value) ∷ []) state (inject_one setenv_fails envvar value state)
  unfolding inject_one export_env_var with_name and_then
  inject_one-Makes envvar value state = elim (Bool-cases (setenv_fails envvar)) [
    | inl e ↦ rw e (stopped _ _ envvar e)
    | inr e ↦ rw e (made _ (λ name. lookup-insert envvar name value state.environment) refl)
  ]

  inject_plain-Makes :
      (plain : KeyValues) (state : Injection)
      → Makes setenv_fails plain state (inject_plain setenv_fails plain state)
  unfolding inject_plain
  inject_plain-Makes [] state = made state (λ name. refl) refl
  inject_plain-Makes ((envvar, value) ∷ plain) state =
      Makes-and_then (inject_one-Makes envvar value state) (inject_plain-Makes plain)

  inject_wanted-Makes :
      {held : Map Text} {wanted settings : KeyValues}
      → AreHeld held wanted settings
      → (state : Injection)
      → Makes setenv_fails settings state (inject_wanted setenv_fails held wanted state)
  unfolding inject_wanted inject_value
  inject_wanted-Makes all_held state = made state (λ name. refl) refl
  inject_wanted-Makes (is_held {envvar} {path} {value} e rest) state =
      rw e (Makes-and_then (inject_one-Makes envvar value state) (inject_wanted-Makes rest))

  pub Makes-inject :
      (plan : Plan) {held environment : Map Text} {settings : KeyValues}
      → AreHeld held plan.wanted settings
      → Makes setenv_fails
          (plan.plain ++ settings)
          (record { environment = environment; injected = [] })
          (and_then
            (inject_plain setenv_fails plan.plain
              (record { environment = environment; injected = [] }))
            (inject_wanted setenv_fails held plan.wanted))
  Makes-inject plan h = Makes-and_then (inject_plain-Makes plan.plain _) (inject_wanted-Makes h)
