-- ===== src/Manifest/Document/Checked.antt =====
-- The parser returns only manifests that have passed every check.
use secretov.Prelude.{◌≡◌, ap, none, some, Option, List, [], ◌∷◌, Bool-cases, inl, inr}
use secretov.Prelude.Result.{
  Result, ok, err, Ensures, returned, failed, ensured, any, Ensures-bind, holds, ok_inj,
}
use secretov.Prelude.Text.{Text, lit}
use secretov.Manifest.Document.{
  manifest_file_name, with_env, value_or, parse_env, parse_envs, parse_default, parse_all_envs,
  parse_document, unfault, parse_manifest,
}
use secretov.Manifest.Entries.{Place}
use secretov.Manifest.Entries.Checked.{parse_env_secrets-AreEntries, parse_env_vars-AreAllowed}
use secretov.Manifest.Parse.{
  SecretEntry, KeyValues, Manifest, refuse_unknown_keys, parse_location, parse_backend,
}
use secretov.Manifest.Parse.Backend.{IsPlaced, parse_location_lem, parse_backend_lem}
use secretov.Manifest.Yaml.{Yaml, Fault, yaml, thrown, from_yaml}
use secretov.Manifest.Document.Valid.{
  IsEnvironment, IsValid, segment_lem, refuse_twice-AreApart, value_or_lem, with_env-IsValid,
  empty-IsValid,
}

unfault-eq-ok {ℓ} :
    {A : Type ℓ} (path : Text) (r : Result Fault A) {a : A} → unfault path r ≡ ok a → r ≡ ok a
unfolding unfault
unfault-eq-ok path (ok a) h = ap ok (ok_inj h)
unfault-eq-ok path (err (yaml what)) h = cc
unfault-eq-ok path (err (thrown what)) h = cc

abbrev Held : Manifest → List SecretEntry × KeyValues → Type 0
Held m held = IsEnvironment m.backend.type held.0 held.1

abbrev env_place : Manifest → Text → Option Text → Place
env_place m env location = record {
  path = m.path;
  env = env;
  project = m.project;
  backend = m.backend.type;
  env_location = value_or location m.backend.location;
}

module _ (y : Yaml) where
  parse_env-Held :
      (m : Manifest) (env : Text) (env_node : y.Node)
      → IsPlaced m.backend.type m.backend.location
      → Ensures (Held m) (parse_env y m env env_node)
  unfolding parse_env
  parse_env-Held m env env_node placed = elim (Bool-cases (y.is_null env_node)) [
    | inl n ↦ rw n (returned ([], []) (record { checked = tt; allowed = tt; apart = tt }))
    | inr n ↦ elim (Bool-cases (y.is_map env_node)) [
      | inr f ↦ rw (n, f) (failed _)
      | inl f ↦
          rw (n, f)
            (Ensures-bind (any (refuse_unknown_keys y env_node _ m.path _)) λ _ _.
              Ensures-bind
                (ensured (parse_location y env_node m.backend.type m.path _)
                  (λ location e. parse_location_lem y env_node m.backend.type m.path _ e))
                λ location located.
                  Ensures-bind
                    (parse_env_secrets-AreEntries y m.backend.type (env_place m env location)
                      (value_or_lem m.backend.type location m.backend.location located placed) _)
                    λ entries checked.
                      Ensures-bind (parse_env_vars-AreAllowed y m.path env _) λ plain allowed.
                        Ensures-bind (refuse_twice-AreApart m.path env plain entries) λ _ apart.
                          returned _
                            (record { checked = checked; allowed = allowed; apart = apart }))
    ]
  ]

  parse_envs-IsValid :
      (pairs : List (y.Node × y.Node)) (m : Manifest)
      → IsValid m
      → Ensures IsValid (parse_envs y pairs m)
  unfolding parse_envs
  parse_envs-IsValid [] m h = returned m h
  parse_envs-IsValid ((first, env_node) ∷ pairs) m h =
      Ensures-bind (any (from_yaml (y.as_string first))) λ env _.
        Ensures-bind (segment_lem env (lit "environment")) λ _ segment.
          Ensures-bind (parse_env-Held m env env_node h.placed) λ held is_held.
            parse_envs-IsValid pairs (with_env m env held)
              (with_env-IsValid m env held.0 held.1 h segment is_held)

  parse_all_envs-IsValid :
      (envs : Option y.Node) (m : Manifest) → IsValid m → Ensures IsValid (parse_all_envs y envs m)
  unfolding parse_all_envs
  parse_all_envs-IsValid none m h = returned m h
  parse_all_envs-IsValid (some envs) m h = elim (Bool-cases (y.is_null envs)) [
    | inl n ↦ rw n (returned m h)
    | inr n ↦ elim (Bool-cases (y.is_map envs)) [
      | inr f ↦ rw (n, f) (failed _)
      | inl f ↦ rw (n, f) (parse_envs-IsValid (y.pairs envs) m h)
    ]
  ]

  parse_document-IsValid :
      (doc : y.Node) (path : Text) → Ensures IsValid (parse_document y doc path)
  unfolding parse_document
  parse_document-IsValid doc path = elim (Bool-cases (y.is_map doc)) [
    | inr f ↦ rw f (failed _)
    | inl f ↦ rw f (
        Ensures-bind (any (refuse_unknown_keys y doc _ path manifest_file_name)) λ _ _.
          Ensures-bind (any _) λ name_node _.
            Ensures-bind (any (from_yaml (y.as_string name_node))) λ project _.
              Ensures-bind (segment_lem project (lit "project")) λ _ segment.
                Ensures-bind
                  (ensured (parse_backend y (y.get doc (lit "backend")) path)
                    (λ backend. parse_backend_lem y (y.get doc (lit "backend")) path))
                  λ backend placed. Ensures-bind (any (parse_default y doc path)) λ default_env _.
                    parse_all_envs-IsValid (y.get doc (lit "env")) _
                      (empty-IsValid path project backend default_env segment placed))
  ]

  -- A manifest that is read has a project name that is one segment, and, for AWS and GCP, a place
  -- of its backend. The environments with entries and those with variables are the same. Each name
  -- of one is a segment; each entry has an allowed variable name, a place and a form that its
  -- backend admits; each plain variable has an allowed name, and none of them is set by an entry
  -- too. No text and no YAML library gets another manifest past the parser.
  pub parse_manifest-IsValid :
      (text path : Text) {m : Manifest} → parse_manifest y text path ≡ ok m → IsValid m
  unfolding parse_manifest
  parse_manifest-IsValid text path {m} h =
      holds (Ensures-bind (any (from_yaml (y.load text))) λ doc _. parse_document-IsValid doc path)
        m (unfault-eq-ok path _ h)
