-- ===== src/Manifest/Files/Nearest.antt =====
-- Which manifest the search upward finds, and that it ends.
use secretov.Prelude.{
  ℕ, zero, suc, ◌<◌, ◌≡◌, sym, ◌∙◌, refl, ◌⊎◌, inl, inr, Option, none, some, true, false, length,
  arith, Bool-cases,
}
use secretov.Prelude.Result.{ok, Result-cases}
use secretov.Prelude.Text.{Text}
use secretov.Manifest.Document.{manifest_file_name}
use secretov.Manifest.Files.{Node, FileSystem, is_owned, find_upward, find_manifest_upward}
use secretov.Manifest.Trust.{Accounts}

-- parent_path drops the last element of a path, or gives the path itself.
pub record ParentLaws (fs : FileSystem) : Type 0 where
  pub shorter :
      (dir : Text)
      → (fs.same_path (fs.parent_path dir) dir ≡ true) ⊎ (length (fs.parent_path dir) < length dir)

module _ (a : Accounts) (fs : FileSystem) where
  -- A directory that stat tells to be our own.
  abbrev pub IsOwn : Text → Type 0
  IsOwn dir = (node : Node) × (fs.stat dir ≡ ok node) × (node.stat.uid ≡ a.my_uid)

  is_owned-IsOwn : (dir : Text) → is_owned a fs dir ≡ true → IsOwn dir
  unfolding is_owned
  is_owned-IsOwn dir h = elim (Result-cases (fs.stat dir)) [
    | inl (node, e) ↦ (node, e, ground (arith, rw (is_owned, e) at h))
    | inr (why, e) ↦ cc (rw (is_owned, e) at h)
  ]

  is_owned-foreign : (dir : Text) → is_owned a fs dir ≡ false → ¬ (IsOwn dir)
  unfolding is_owned
  is_owned-foreign dir h (node, e, mine) = ground (arith, rw (is_owned, e) at h, mine)

  -- The first manifest from the directory upward, where each directory up to it is our own.
  pub data IsNearest : Text → Option Text → Type 0 where
    foreign : {dir : Text} → ¬ (IsOwn dir) → IsNearest dir none
    here :
        {dir : Text}
        → IsOwn dir
        → fs.link_is_there (fs.in_directory dir manifest_file_name) ≡ true
        → IsNearest dir (some (fs.in_directory dir manifest_file_name))
    at_root :
        {dir : Text}
        → IsOwn dir
        → fs.link_is_there (fs.in_directory dir manifest_file_name) ≡ false
        → fs.same_path (fs.parent_path dir) dir ≡ true
        → IsNearest dir none
    above :
        {dir : Text} {found : Option Text}
        → IsOwn dir
        → fs.link_is_there (fs.in_directory dir manifest_file_name) ≡ false
        → fs.same_path (fs.parent_path dir) dir ≡ false
        → IsNearest (fs.parent_path dir) found
        → IsNearest dir found

  higher :
      (fuel : ℕ) (dir : Text)
      → ParentLaws fs
      → fs.same_path (fs.parent_path dir) dir ≡ false
      → length dir < suc fuel
      → length (fs.parent_path dir) < fuel
  higher fuel dir laws other h = elim (laws.shorter dir) [
    | inl same ↦ absurd (cc (sym same ∙ other))
    | inr less ↦ omega (arith, less, h)
  ]

  find_upward-IsNearest :
      (fuel : ℕ) (dir : Text)
      → ParentLaws fs
      → length dir < fuel
      → (found : Option Text) × (find_upward a fs fuel dir ≡ some found) × IsNearest dir found
  unfolding find_upward
  find_upward-IsNearest zero dir laws h = absurd (omega (arith, h))
  find_upward-IsNearest (suc fuel) dir laws h = elim (Bool-cases (is_owned a fs dir)) [
    | inr e ↦ simp e (none, refl, foreign (is_owned-foreign dir e))
    | inl e ↦ elim (Bool-cases (fs.link_is_there (fs.in_directory dir manifest_file_name))) [
      | inl f ↦ simp (e, f) (some _, refl, here (is_owned-IsOwn dir e) f)
      | inr f ↦ elim (Bool-cases (fs.same_path (fs.parent_path dir) dir)) [
        | inl g ↦ simp (e, f, g) (none, refl, at_root (is_owned-IsOwn dir e) f g)
        | inr g ↦
            let (found, r, nearest) =
              find_upward-IsNearest fuel (fs.parent_path dir) laws (higher fuel dir laws g h) in
            simp (e, f, g) (found, r, above (is_owned-IsOwn dir e) f g nearest)
      ]
    ]
  ]

  -- parent_path of a directory is shorter or the same path. Then the search ends, and gives the
  -- manifest of the first directory upward that has one, if it and all before it are our own; and
  -- none if a directory of another user, one that cannot be asked for, or the root comes first.
  pub find_manifest_upward-IsNearest :
      (start_dir : Text)
      → ParentLaws fs
      → (found : Option Text) × (find_manifest_upward a fs start_dir ≡ some found)
        × IsNearest start_dir found
  unfolding find_manifest_upward
  find_manifest_upward-IsNearest start_dir laws =
      find_upward-IsNearest (suc (length start_dir)) start_dir laws (omega arith)
