-- ===== src/Client/Resolve/Project.antt =====
-- The manifest, project and path that a command works on.
use secretov.Prelude.{
  ◌≡◌, sym, ap, subst, ◌∙◌, inl, inr, Option, none, some, not, ◌++◌, arith, Option-cases,
}
use secretov.Prelude.Result.{Result, ok, bind-eq-ok, ok_inj, throw_if, throw_if-ok}
use secretov.Prelude.Text.{Text, lit, text_eq, text_eq→eq}
use secretov.Client.Resolve.{
  nearest_manifest, registered_manifest, project_manifest, enclosing_manifest, found_manifest,
  resolve_manifest,
}
use secretov.Manifest.Document.{manifest_file_name, parse_manifest}
use secretov.Manifest.Document.Checked.{parse_manifest-IsValid}
use secretov.Manifest.Document.Valid.{IsValid}
use secretov.Manifest.Files.{FileSystem, read_manifest_text, load_manifest}
use secretov.Manifest.Files.Nearest.{ParentLaws, IsNearest, find_manifest_upward-IsNearest}
use secretov.Manifest.Files.Vetted.{IsVetted, read_manifest_text-IsVetted}
use secretov.Manifest.Parse.{Manifest}
use secretov.Manifest.Registry.{Environment, registry_project_root}
use secretov.Manifest.Trust.{Accounts}
use secretov.Manifest.Trust.Trusted.{IsLookup}
use secretov.Manifest.Yaml.{Yaml}

module _ (a : Accounts) (fs : FileSystem) (y : Yaml) where
  -- The manifest of a vetted file, whole and checked.
  pub record IsLoaded (path : Text) (m : Manifest) : Type 0 where
    pub text : Text
    pub vetted : IsVetted a fs path text
    pub parsed : parse_manifest y text path ≡ ok m
    pub valid : IsValid m

  load_manifest-IsLoaded :
      (path : Text) (m : Manifest) → IsLookup a → load_manifest a fs y path ≡ ok m → IsLoaded path m
  unfolding load_manifest
  load_manifest-IsLoaded path m look h =
      let (text, read, parsed) = bind-eq-ok (read_manifest_text a fs path (lit "manifest")) _ h in
      record {
        text = text;
        vetted = read_manifest_text-IsVetted a fs path (lit "manifest") text look read;
        parsed = parsed;
        valid = parse_manifest-IsValid y text path parsed;
      }

  module _ (environment : Environment) (registry_path : Text) (cwd : Result Text Text) where
    -- Which manifest a project's name, or none, leads to.
    pub data IsResolved : Option Text → Manifest → Type 0 where
      registered :
          {project root : Text} {m : Manifest}
          → registry_project_root a fs y environment registry_path project ≡ ok (some root)
          → IsLoaded (root ++ (lit "/" ++ manifest_file_name)) m
          → m.project ≡ project
          → IsResolved (some project) m
      enclosing :
          {dir path : Text} {m : Manifest}
          → cwd ≡ ok dir
          → IsNearest a fs dir (some path)
          → IsLoaded path m
          → IsResolved none m

    project_manifest-IsResolved :
        (project : Text) (m : Manifest)
        → IsLookup a
        → project_manifest a fs y environment registry_path project ≡ ok m
        → IsResolved (some project) m
    unfolding project_manifest registered_manifest
    project_manifest-IsResolved project m look h =
        let (found, r, h₁) =
          bind-eq-ok (registry_project_root a fs y environment registry_path project) _ h in
        elim (Option-cases found) [
          | inl e ↦ cc (rw e at h₁)
          | inr (root, e) ↦
              let (n, loaded, h₂) =
                bind-eq-ok (load_manifest a fs y (root ++ (lit "/" ++ manifest_file_name))) _
                  (rw e at h₁) in
              let (u, same, h₃) = bind-eq-ok (throw_if (not (text_eq n.project project)) _) _ h₂ in
              let here : n ≡ m = ok_inj h₃ in
              registered (r ∙ ap ok e)
                (subst (IsLoaded (root ++ (lit "/" ++ manifest_file_name))) here
                  (load_manifest-IsLoaded _ n look loaded))
                (ap (λ (q : Manifest). q.project) (sym here)
                  ∙ text_eq→eq n.project project
                      (ground (arith, throw_if-ok (not (text_eq n.project project)) _ same)))
        ]

    nearest_manifest-IsNearest :
        (dir path : Text)
        → ParentLaws fs
        → nearest_manifest a fs dir ≡ some path
        → IsNearest a fs dir (some path)
    unfolding nearest_manifest
    nearest_manifest-IsNearest dir path laws h =
        let (found, e, nearest) = find_manifest_upward-IsNearest a fs dir laws in
        subst (IsNearest a fs dir) (rw (nearest_manifest, e) at h) nearest

    enclosing_manifest-IsResolved :
        (m : Manifest)
        → IsLookup a
        → ParentLaws fs
        → enclosing_manifest a fs y cwd ≡ ok m
        → IsResolved none m
    unfolding enclosing_manifest found_manifest
    enclosing_manifest-IsResolved m look laws h =
        let (dir, here, h₁) = bind-eq-ok cwd _ h in
        elim (Option-cases (nearest_manifest a fs dir)) [
          | inl e ↦ cc (rw e at h₁)
          | inr (path, e) ↦
              enclosing here (nearest_manifest-IsNearest dir path laws e)
                (load_manifest-IsLoaded path m look (rw e at h₁))
        ]

    -- getgrgid answers with an entry of the gid that was asked for, and parent_path of a directory
    -- is shorter or the same path. Then the manifest that -p NAME leads to is that of a root which
    -- the registry has for NAME, and it names NAME itself; without -p it is that of the nearest
    -- directory upward, all of them our own. Either way its file was vetted, and it is a valid
    -- manifest.
    pub resolve_manifest-IsResolved :
        (project : Option Text) (m : Manifest)
        → IsLookup a
        → ParentLaws fs
        → resolve_manifest a fs y environment registry_path cwd project ≡ ok m
        → IsResolved project m
    unfolding resolve_manifest
    resolve_manifest-IsResolved none m look laws h = enclosing_manifest-IsResolved m look laws h
    resolve_manifest-IsResolved (some project) m look laws h =
        project_manifest-IsResolved project m look h
