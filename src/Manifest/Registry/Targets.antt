-- ===== src/Manifest/Registry/Targets.antt =====
-- What the registry gives was read from a vetted file.
use secretov.Prelude.{
  and_both, some_inj, ◌≡◌, refl, sym, ap, subst, ◌∙◌, ◌⊎◌, inl, inr, Option, none, some, Bool, true,
  false, not, ◌&&◌, List, [], ◌∷◌, arith, Bool-cases, Option-cases, if◌then◌else◌, drop,
}
use secretov.Prelude.Result.{Result, ok, err, bind-eq-ok, ok_inj, throw_if}
use secretov.Prelude.Text.{Text, lit, starts_with}
use secretov.Manifest.Cloud.{is_aws_account, is_gcp_project}
use secretov.Manifest.Files.{FileSystem, read_manifest_text}
use secretov.Manifest.Files.Vetted.{IsVetted, read_manifest_text-IsVetted}
use secretov.Manifest.Registry.{
  Environment, expand_vars, relabel, present, load_text, root_of, root_spec, existing_root,
  document_root, load_registry, registry_project_root, is_write_target, targets_from,
  listed_targets, registry_write_targets,
}
use secretov.Manifest.Registry.Expanded.{Expands, expand_vars-Expands}
use secretov.Manifest.Trust.{Accounts}
use secretov.Manifest.Trust.Trusted.{IsLookup}
use secretov.Manifest.Yaml.{Yaml, Fault, yaml, thrown, from_yaml, from_code}

-- An AWS account of twelve digits or the id of a GCP project, behind what tells them apart.
pub data IsTarget (target : Text) : Type 0 where
  account :
      starts_with (lit "aws-account:") target ≡ true
      → is_aws_account (drop 12 target) ≡ true
      → IsTarget target
  project :
      starts_with (lit "gcp:") target ≡ true
      → is_gcp_project (drop 4 target) ≡ true
      → IsTarget target

abbrev pub AllTargets : List Text → Type 0
AllTargets [] = Unit
AllTargets (target ∷ targets) = IsTarget target × AllTargets targets

is_write_target-IsTarget : (target : Text) → is_write_target target ≡ true → IsTarget target
unfolding is_write_target
is_write_target-IsTarget target h =
    elim (Bool-cases (starts_with (lit "gcp:") target && is_gcp_project (drop 4 target))) [
      | inl e ↦ let (front, id) = and_both _ _ e in project front id
      | inr e ↦
          let (front, id) =
            and_both (starts_with (lit "aws-account:") target) (is_aws_account (drop 12 target))
              (ground (arith, e, h)) in
          account front id
    ]

is_false : (b : Bool) (what : Text) → throw_if (not b) what ≡ ok tt → b ≡ true
is_false true what h = refl
is_false false what h = cc

accepted :
    (b : Bool) (what : Text) (u : Unit {0}) → from_code (throw_if (not b) what) ≡ ok u → b ≡ true
accepted true what u h = refl
accepted false what u h = cc

module _ (y : Yaml) where
  targets_from-AllTargets :
      (registry_path : Text) (items : List y.Node) (targets : List Text)
      → targets_from y registry_path items ≡ ok targets
      → AllTargets targets
  unfolding targets_from
  targets_from-AllTargets registry_path [] targets h = subst AllTargets (ok_inj h) tt
  targets_from-AllTargets registry_path (item ∷ items) targets h =
      let (target, r, h₁) =
        bind-eq-ok (if y.is_scalar item then from_yaml (y.as_string item) else ok []) _ h in
      let (u, checked, h₂) =
        bind-eq-ok (from_code (throw_if (not (is_write_target target)) _)) _ h₁ in
      let (later, s, same) = bind-eq-ok (targets_from y registry_path items) _ h₂ in
      subst AllTargets (ok_inj same) (
        is_write_target-IsTarget target (accepted (is_write_target target) _ u checked),
        targets_from-AllTargets registry_path items later s,
      )

  relabel-ok {ℓ} :
      {A : Type ℓ} (registry_path : Text) (r : Result Fault A) (v : A)
      → relabel registry_path r ≡ ok v
      → r ≡ ok v
  relabel-ok registry_path (ok u) v h = ap ok (ok_inj h)
  relabel-ok registry_path (err (yaml what)) v h = cc
  relabel-ok registry_path (err (thrown what)) v h = cc

  listed_targets-AllTargets :
      (registry_path : Text) (doc : y.Node) (targets : List Text)
      → listed_targets y registry_path doc ≡ ok targets
      → AllTargets targets
  unfolding listed_targets
  listed_targets-AllTargets registry_path doc targets h =
      let (found, r, h₁) = bind-eq-ok (from_yaml (y.subscript doc (lit "write_targets"))) _ h in
      elim (Option-cases (present y found)) [
        | inl e ↦ subst AllTargets (ok_inj (rw e at h₁)) tt
        | inr (node, e) ↦ elim (Bool-cases (y.is_sequence node)) [
          | inr other ↦ cc (rw (e, other) at h₁)
          | inl list ↦
              targets_from-AllTargets registry_path (y.items node) targets (rw (e, list) at h₁)
        ]
      ]

  -- The document has a mapping of projects, the project's own entry there is a mapping too, and
  -- what this one has as its root is read as `spec`.
  pub record IsEntry (name spec : Text) (doc : y.Node) : Type 0 where
    pub projects : y.Node
    pub entry : y.Node
    pub root : y.Node
    pub has_projects : y.subscript doc (lit "projects") ≡ ok (some projects)
    pub projects_map : y.is_map projects ≡ true
    pub has_project : y.get projects name ≡ some entry
    pub project_given : y.is_null entry ≡ false
    pub project_map : y.is_map entry ≡ true
    pub has_root : y.get entry (lit "root") ≡ some root
    pub root_scalar : y.is_scalar root ≡ true
    pub reads : y.as_string root ≡ ok spec

  present-some :
      (found : Option y.Node) (node : y.Node)
      → present y found ≡ some node
      → (found ≡ some node) × (y.is_null node ≡ false)
  present-some none node h = cc
  present-some (some m) node h = elim (Bool-cases (y.is_null m)) [
    | inl e ↦ cc (rw e at h)
    | inr e ↦
        let same : m ≡ node = some_inj (rw e at h) in
        (ap some same, subst (λ n. y.is_null n ≡ false) same e)
  ]

  from_yaml-ok {ℓ} : {A : Type ℓ} (r : Result Text A) (v : A) → from_yaml r ≡ ok v → r ≡ ok v
  from_yaml-ok (ok u) v h = ap ok (ok_inj h)
  from_yaml-ok (err what) v h = cc

  root_of-root :
      (registry_path name spec : Text) (entry : y.Node)
      → root_of y registry_path name entry ≡ ok (some spec)
      → (y.is_map entry ≡ true)
        × ((root : y.Node) × (y.get entry (lit "root") ≡ some root)
            × (y.is_scalar root ≡ true)
            × (y.as_string root ≡ ok spec))
  unfolding root_of
  root_of-root registry_path name spec entry h = elim (Bool-cases (y.is_map entry)) [
    | inr e ↦ cc (rw (root_of, e) at h)
    | inl e ↦ elim (Option-cases (y.get entry (lit "root"))) [
      | inl f ↦ cc (rw (root_of, e, f) at h)
      | inr (root, f) ↦ elim (Bool-cases (y.is_scalar root)) [
        | inr g ↦ cc (rw (root_of, e, f, g) at h)
        | inl g ↦
            let (read, r, same) =
              bind-eq-ok (from_yaml (y.as_string root)) _ (rw (root_of, e, f, g) at h) in
            (e, (root, f, g, from_yaml-ok _ spec (r ∙ ap ok (some_inj (ok_inj same)))))
      ]
    ]
  ]

  root_spec-IsEntry :
      (registry_path name spec : Text) (doc : y.Node)
      → root_spec y registry_path name doc ≡ ok (some spec)
      → IsEntry name spec doc
  unfolding root_spec
  root_spec-IsEntry registry_path name spec doc h =
      let (found, r, h₁) = bind-eq-ok (from_yaml (y.subscript doc (lit "projects"))) _ h in
      elim (Option-cases (present y found)) [
        | inl e ↦ cc (rw e at h₁)
        | inr (projects, e) ↦ elim (Bool-cases (y.is_map projects)) [
          | inr f ↦ cc (rw (e, f) at h₁)
          | inl f ↦ elim (Option-cases (present y (y.get projects name))) [
            | inl g ↦ cc (rw (e, f, g) at h₁)
            | inr (entry, g) ↦
                let (has, given) = present-some (y.get projects name) entry g in
                let (is_map, (root, found_root, scalar, reads)) =
                  root_of-root registry_path name spec entry (rw (e, f, g) at h₁) in
                record {
                  projects = projects;
                  entry = entry;
                  root = root;
                  has_projects = from_yaml-ok _ _ (r ∙ ap ok (present-some found projects e).0);
                  projects_map = f;
                  has_project = has;
                  project_given = given;
                  project_map = is_map;
                  has_root = found_root;
                  root_scalar = scalar;
                  reads = reads;
                }
          ]
        ]
      ]

module _ (a : Accounts) (fs : FileSystem) (y : Yaml) where
  -- The document of a registry that is there.
  pub record IsRegistry (registry_path : Text) (doc : y.Node) : Type 0 where
    pub text : Text
    pub vetted : IsVetted a fs registry_path text
    pub loaded : load_text y registry_path text ≡ ok doc

  load_registry-IsRegistry :
      (registry_path : Text) (doc : y.Node)
      → IsLookup a
      → load_registry a fs y registry_path ≡ ok (some doc)
      → IsRegistry registry_path doc
  unfolding load_registry
  load_registry-IsRegistry registry_path doc look h =
      elim (Bool-cases (fs.is_there registry_path)) [
        | inr gone ↦ cc (rw (load_registry, gone) at h)
        | inl there ↦
            let (text, read, h₁) =
              bind-eq-ok (read_manifest_text a fs registry_path (lit "registry")) _
                (rw (load_registry, there) at h) in
            let (node, loaded, same) = bind-eq-ok (load_text y registry_path text) _ h₁ in
            record {
              text = text;
              vetted =
                  read_manifest_text-IsVetted a fs registry_path (lit "registry") text look read;
              loaded = loaded ∙ ap ok (some_inj (ok_inj same));
            }
      ]

  -- getgrgid answers with an entry of the gid that was asked for. Then the targets of writes are
  -- AWS accounts and GCP projects, every one of them; and there are none, or they come from the
  -- document of a registry that was vetted as a manifest is.
  registry_write_targets-AllTargets :
      (registry_path : Text) (targets : List Text)
      → IsLookup a
      → registry_write_targets a fs y registry_path ≡ ok targets
      → AllTargets targets
        × ((targets ≡ [])
            ⊎ ((doc : y.Node) × IsRegistry registry_path doc
                × (listed_targets y registry_path doc ≡ ok targets)))
  unfolding registry_write_targets
  registry_write_targets-AllTargets registry_path targets look h =
      let (loaded, r, h₁) = bind-eq-ok (load_registry a fs y registry_path) _ h in
      elim (Option-cases loaded) [
        | inl e ↦ (subst AllTargets (ok_inj (rw e at h₁)) tt, inl (sym (ok_inj (rw e at h₁))))
        | inr (doc, e) ↦
            let listed =
              relabel-ok y registry_path (listed_targets y registry_path doc) targets
                (rw e at h₁) in
            (
              listed_targets-AllTargets y registry_path doc targets listed,
              inr (doc, load_registry-IsRegistry registry_path doc look (r ∙ ap ok e), listed),
            )
      ]

  existing_root-Expands :
      (env : Environment) (found : Option Text) (root : Text)
      → existing_root a fs y env found ≡ ok (some root)
      → (spec : Text) × (found ≡ some spec) × Expands env spec root × (fs.is_there root ≡ true)
  unfolding existing_root
  existing_root-Expands env none root h = cc
  existing_root-Expands env (some spec) root h =
      let (out, expanded, h₁) = bind-eq-ok (expand_vars env spec) _ h in
      let (u, there, same) = bind-eq-ok (throw_if (not (fs.is_there out)) _) _ h₁ in
      let here : out ≡ root = some_inj (ok_inj same) in
      (
        spec,
        refl,
        subst (Expands env spec) here (expand_vars-Expands env spec out expanded),
        subst (λ t. fs.is_there t ≡ true) here (is_false (fs.is_there out) _ there),
      )

  -- What a root comes from.
  pub record IsRoot (env : Environment) (name root : Text) (doc : y.Node) : Type 0 where
    pub spec : Text
    pub written : IsEntry y name spec doc
    pub expands : Expands env spec root
    pub there : fs.is_there root ≡ true

  document_root-IsRoot :
      (env : Environment) (registry_path name root : Text) (loaded : Option y.Node)
      → document_root a fs y env registry_path name loaded ≡ ok (some root)
      → (doc : y.Node) × (loaded ≡ some doc) × IsRoot env name root doc
  unfolding document_root
  document_root-IsRoot env registry_path name root none h = cc
  document_root-IsRoot env registry_path name root (some doc) h =
      let (found, s, h₁) =
        bind-eq-ok (relabel registry_path (root_spec y registry_path name doc)) _ h in
      let (spec, f, expands, there) = existing_root-Expands env found root h₁ in
      (
        doc,
        refl,
        record {
          spec = spec;
          written = root_spec-IsEntry y registry_path name spec doc (
              relabel-ok y registry_path (root_spec y registry_path name doc) (some spec)
                (s ∙ ap ok f));
          expands = expands;
          there = there;
        },
      )

  -- getgrgid answers with an entry of the gid that was asked for. Then the root of a project is
  -- what the document of a vetted registry has under "projects", the project's name and "root",
  -- with its variables expanded, and it is there.
  pub registry_project_root-IsRoot :
      (env : Environment) (registry_path name root : Text)
      → IsLookup a
      → registry_project_root a fs y env registry_path name ≡ ok (some root)
      → (doc : y.Node) × IsRegistry registry_path doc × IsRoot env name root doc
  unfolding registry_project_root
  registry_project_root-IsRoot env registry_path name root look h =
      let (loaded, r, h₁) = bind-eq-ok (load_registry a fs y registry_path) _ h in
      let (doc, e, root_of) = document_root-IsRoot env registry_path name root loaded h₁ in
      (doc, load_registry-IsRegistry registry_path doc look (r ∙ ap ok e), root_of)
