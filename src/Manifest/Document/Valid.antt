-- ===== src/Manifest/Document/Valid.antt =====
-- What the checks of a manifest guarantee of it.
use secretov.Prelude.{
  ◌≡◌, refl, subst, false, none, some, Option, List, [], ◌∷◌, arith, Bool-cases, inl, inr, is_some,
}
use secretov.Prelude.Map.{lookup, lookup-insert}
use secretov.Prelude.Result.{Ensures, returned, failed, ensured, Ensures-map}
use secretov.Prelude.Text.{Text, text_eq, text_eq_iff, is_empty, find_byte}
use secretov.Manifest.Cloud.{BackendType, local, aws, gcp}
use secretov.Manifest.Document.{is_set, refuse_twice, with_env, value_or}
use secretov.Manifest.Entries.Checked.{AreEntries, AreAllowed}
use secretov.Manifest.Parse.{SecretEntry, KeyValues, Manifest, BackendConfig}
use secretov.Manifest.Parse.Backend.{IsPlaced, IsPlacedIf}
use secretov.Manifest.Scopes.{require_segment}
use secretov.Manifest.Yaml.{from_code}

-- No variable is set by an entry too.
abbrev pub AreApart : KeyValues → List SecretEntry → Type 0
AreApart [] entries = Unit
AreApart ((name, value) ∷ plain) entries = (is_set name entries ≡ false) × AreApart plain entries

abbrev pub IsSegment : Text → Type 0
IsSegment s = (is_empty s ≡ false) × (find_byte b'/' s ≡ none)

pub record IsEnvironment (backend : BackendType) (entries : List SecretEntry) (plain : KeyValues)
    : Type 0 where
  pub checked : AreEntries backend entries
  pub allowed : AreAllowed plain
  pub apart : AreApart plain entries

pub record IsValid (m : Manifest) : Type 0 where
  pub segment : IsSegment m.project
  pub placed : IsPlaced m.backend.type m.backend.location
  pub paired : (env : Text) → is_some (lookup env m.envs) ≡ is_some (lookup env m.vars)
  pub environments :
      (env : Text) (entries : List SecretEntry) (plain : KeyValues)
      → lookup env m.envs ≡ some entries
      → lookup env m.vars ≡ some plain
      → IsSegment env × IsEnvironment m.backend.type entries plain

pub refuse_twice-AreApart :
    (path env : Text) (plain : KeyValues) (entries : List SecretEntry)
    → Ensures (λ _. AreApart plain entries) (refuse_twice path env plain entries)
unfolding refuse_twice
refuse_twice-AreApart path env [] entries = returned tt tt
refuse_twice-AreApart path env ((name, value) ∷ plain) entries =
    elim (Bool-cases (is_set name entries)) [
      | inl e ↦ rw e (failed _)
      | inr e ↦
          rw e
            (Ensures-map (λ _ apart. (refl, apart)) (refuse_twice-AreApart path env plain entries))
    ]

pub segment_lem : (s what : Text) → Ensures (λ _. IsSegment s) (from_code (require_segment s what))
unfolding require_segment
segment_lem s what = ensured _ (λ _ h. ground (arith, h))

pub value_or_lem :
    (type : BackendType) (location : Option Text) (otherwise : Text)
    → IsPlacedIf type location
    → IsPlaced type otherwise
    → IsPlaced type (value_or location otherwise)
unfolding value_or
value_or_lem type none otherwise h k = k
value_or_lem local (some v) otherwise h k = absurd h
value_or_lem aws (some v) otherwise h k = h
value_or_lem gcp (some v) otherwise h k = h

same-IsEnvironment :
    (backend : BackendType) {env j : Text} {entries es : List SecretEntry} {plain ps : KeyValues}
    → env ≡ j
    → entries ≡ es
    → plain ≡ ps
    → IsSegment env
    → IsEnvironment backend entries plain
    → IsSegment j × IsEnvironment backend es ps
same-IsEnvironment backend {es} {plain} p q r s e = (
  subst IsSegment p s,
  subst (IsEnvironment backend es) r (subst (λ x. IsEnvironment backend x plain) q e),
)

-- An environment that is added is the one of its name; the others stay.
pub with_env-IsValid :
    (m : Manifest) (env : Text) (entries : List SecretEntry) (plain : KeyValues)
    → IsValid m
    → IsSegment env
    → IsEnvironment m.backend.type entries plain
    → IsValid (with_env m env (entries, plain))
with_env-IsValid m env entries plain h s e = record {
  segment = h.segment;
  placed = h.placed;
  paired = λ j.
      ground
        (arith, lookup-insert env j entries m.envs, lookup-insert env j plain m.vars, h.paired j);
  environments = λ j es ps a b. elim (Bool-cases (text_eq env j)) [
    | inl same ↦
        same-IsEnvironment m.backend.type ((text_eq_iff env j).0 same)
          (ground (arith, same, a, lookup-insert env j entries m.envs))
          (ground (arith, same, b, lookup-insert env j plain m.vars)) s e
    | inr other ↦
        h.environments j es ps (ground (arith, other, a, lookup-insert env j entries m.envs))
          (ground (arith, other, b, lookup-insert env j plain m.vars))
  ];
}

pub empty-IsValid :
    (path project : Text) (backend : BackendConfig) (default_env : Option Text)
    → IsSegment project
    → IsPlaced backend.type backend.location
    → IsValid (record {
      path = path;
      project = project;
      backend = backend;
      default_env = default_env;
      envs = [];
      vars = [];
    })
unfolding lookup
empty-IsValid path project backend default_env segment placed = record {
  segment = segment;
  placed = placed;
  paired = λ env. refl;
  environments = λ env entries plain a b. cc a;
}
