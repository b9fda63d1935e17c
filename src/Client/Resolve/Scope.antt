-- ===== src/Client/Resolve/Scope.antt =====
-- The scope and the path that a command works on.
use secretov.Prelude.{
  ◌≡◌, refl, sym, ap, subst, ◌∙◌, inl, inr, Option, none, some, true, false, is_some, Bool-cases,
  some_inj,
}
use secretov.Prelude.Result.{Result, ok, bind-eq-ok, ok_inj}
use secretov.Prelude.Text.{Text}
use secretov.Client.Plan.{ScopeArgs, resolve_env}
use secretov.Client.Resolve.Project.{IsResolved, registered, enclosing, resolve_manifest-IsResolved}
use secretov.Client.Resolve.{
  ResolvedScope, project_manifest, enclosing_manifest, resolve_manifest, scope_manifest,
  project_of_scope, resolve_scope,
}
use secretov.Manifest.Files.{FileSystem}
use secretov.Manifest.Files.Nearest.{ParentLaws}
use secretov.Manifest.Parse.{Manifest}
use secretov.Manifest.Registry.{Environment, registry_project_root}
use secretov.Manifest.Trust.{Accounts}
use secretov.Manifest.Trust.Trusted.{IsLookup}
use secretov.Manifest.Yaml.{Yaml}

module _ (a : Accounts) (fs : FileSystem) (y : Yaml) (environment : Environment)
    (registry_path : Text) (cwd : Result Text Text) where
  -- The project of a scope is the one asked for, or the manifest's, and they agree.
  pub record IsScope (override : Option Text) (scope : ScopeArgs) (resolved : ResolvedScope)
      : Type 0 where
    pub asked : (project : Text) → scope.project ≡ some project → resolved.project ≡ project
    pub env_given : resolve_env scope override resolved.manifest ≡ ok resolved.env
    pub agrees :
        (m : Manifest)
        → resolved.manifest ≡ some m
        → IsResolved a fs y environment registry_path cwd scope.project m
          × (m.project ≡ resolved.project)
    pub known : is_some scope.project ≡ false → is_some resolved.manifest ≡ true
    -- a registered project has its manifest
    pub has_manifest :
        (project root : Text)
        → scope.project ≡ some project
        → registry_project_root a fs y environment registry_path project ≡ ok (some root)
        → is_some resolved.manifest ≡ true

  project_manifest-resolve :
      (project : Text) (m : Manifest)
      → project_manifest a fs y environment registry_path project ≡ ok m
      → resolve_manifest a fs y environment registry_path cwd (some project) ≡ ok m
  unfolding resolve_manifest
  project_manifest-resolve project m h = h

  enclosing_manifest-resolve :
      (m : Manifest)
      → enclosing_manifest a fs y cwd ≡ ok m
      → resolve_manifest a fs y environment registry_path cwd none ≡ ok m
  unfolding resolve_manifest
  enclosing_manifest-resolve m h = h

  -- What scope_manifest gives was resolved; it gives one without -p.
  scope_manifest-resolved :
      (project : Option Text) (manifest : Option Manifest)
      → scope_manifest a fs y environment registry_path cwd project ≡ ok manifest
      → ((m : Manifest)
          → manifest ≡ some m
          → resolve_manifest a fs y environment registry_path cwd project ≡ ok m)
        × (is_some project ≡ false → is_some manifest ≡ true)
        × ((name root : Text)
            → project ≡ some name
            → registry_project_root a fs y environment registry_path name ≡ ok (some root)
            → is_some manifest ≡ true)
  unfolding scope_manifest
  scope_manifest-resolved none manifest h =
      let (m, found, same) = bind-eq-ok (enclosing_manifest a fs y cwd) _ h in
      (
        λ n e. enclosing_manifest-resolve n (found ∙ ap ok (some_inj (ok_inj same ∙ e))),
        λ e. ap is_some (sym (ok_inj same)),
        λ name root e k. cc,
      )
  scope_manifest-resolved (some project) manifest h =
      let (root, listed, h₁) =
        bind-eq-ok (registry_project_root a fs y environment registry_path project) _ h in
      elim (Bool-cases (is_some root)) [
        | inr e ↦ (
          λ n f. cc (rw e at h₁),
          λ f. cc,
          λ name dir f k.
              let other : ok root ≡ ok (some dir) =
                sym listed
                ∙ ap (registry_project_root a fs y environment registry_path) (some_inj f)
                ∙ k in
              absurd (cc (e, ap is_some (ok_inj other))),
        )
        | inl e ↦
            let (m, found, same) =
              bind-eq-ok (project_manifest a fs y environment registry_path project) _
                (rw e at h₁) in
            (
              λ n f.
                  project_manifest-resolve project n (found ∙ ap ok (some_inj (ok_inj same ∙ f))),
              λ f. cc,
              λ name dir f k. ap is_some (sym (ok_inj same)),
            )
      ]

  IsResolved-project :
      (project : Option Text) (m : Manifest)
      → IsResolved a fs y environment registry_path cwd project m
      → m.project ≡ project_of_scope project (some m)
  unfolding project_of_scope
  IsResolved-project _ m (registered r loaded same) = same
  IsResolved-project _ m (enclosing here nearest loaded) = refl

  asked_for :
      (scope : Option Text) (manifest : Option Manifest) (project : Text)
      → scope ≡ some project
      → project_of_scope scope manifest ≡ project
  unfolding project_of_scope
  asked_for (some q) manifest project e = some_inj e
  asked_for none manifest project e = cc

  project_of_manifest :
      (scope : Option Text) (manifest : Option Manifest) (m : Manifest)
      → manifest ≡ some m
      → project_of_scope scope manifest ≡ project_of_scope scope (some m)
  project_of_manifest scope manifest m e = ap (project_of_scope scope) e

  -- Under the premises of `resolve_manifest`'s theorem, a scope that is resolved has the project
  -- that -p names, and else the manifest's own; the environment of -e, the variable or the
  -- manifest's default, in this order; and its manifest, which only a project that is not
  -- registered lacks, is the resolved one and of the same project.
  pub resolve_scope-IsScope :
      (override : Option Text) (scope : ScopeArgs) (resolved : ResolvedScope)
      → IsLookup a
      → ParentLaws fs
      → resolve_scope a fs y environment registry_path cwd override scope ≡ ok resolved
      → IsScope override scope resolved
  unfolding resolve_scope
  resolve_scope-IsScope override scope resolved look laws h =
      let (manifest, found, h₁) =
        bind-eq-ok (scope_manifest a fs y environment registry_path cwd scope.project) _ h in
      let (env, given, same) = bind-eq-ok (resolve_env scope override manifest) _ h₁ in
      let (each, known, has_manifest) = scope_manifest-resolved scope.project manifest found in
      subst (IsScope override scope) (ok_inj same) (record {
        asked = asked_for scope.project manifest;
        env_given = given;
        agrees = λ m e.
            let is =
              resolve_manifest-IsResolved a fs y environment registry_path cwd scope.project m look
                laws (each m e) in
            (
              is,
              IsResolved-project scope.project m is
                  ∙ sym (project_of_manifest scope.project manifest m e),
            );
        known = known;
        has_manifest = has_manifest;
      })
