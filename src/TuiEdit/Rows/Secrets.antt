-- ===== src/TuiEdit/Rows/Secrets.antt =====
-- Which secrets are shown.
use secretov.Prelude.{
  ℕ, zero, suc, ◌+◌, ◌≡◌, refl, ap, sym, ◌∙◌, Bool, true, false, not, ◌&&◌, ◌||◌, List, [], ◌∷◌,
  ◌++◌, take, drop, length, arith, if◌then◌else◌, Bool-cases, inl, inr, append_assoc, append-nil,
}
use secretov.Prelude.Text.{Text, text_eq, text_eq_iff}
use secretov.TuiEdit.Rows.{
  contains_ignore_case, Row, is_folded, folders_behind, count_shared, any_folded, Tree, add_row,
  add_folders, add_key, end_of_last, next_branch, rows_from, build_rows,
}

-- The keys of the rows that are secrets, in order.
unfoldable pub secrets : List Row → List Text
secrets [] = []
secrets (row ∷ rows) = if row.dir then secrets rows else row.id ∷ secrets rows

secrets-append : (a b : List Row) → secrets (a ++ b) ≡ secrets a ++ secrets b
unfolding secrets
secrets-append [] b = refl
secrets-append (row ∷ a) b = ground (arith, secrets-append a b)

-- The keys that match and stand under no folded folder.
unfoldable pub visible : Text → List Text → List Text → List Text
visible filter collapsed [] = []
visible filter collapsed (key ∷ keys) =
    if contains_ignore_case key filter && not (any_folded filter collapsed (folders_behind [] key))
    then key ∷ visible filter collapsed keys
    else visible filter collapsed keys

secrets-add_folder :
    (hidden : Bool) (folder : Text) (depth start : ℕ) (tree : Tree)
    → secrets (add_row hidden (record { id = folder; dir = true; depth = depth }) start tree).rows
      ≡ secrets tree.rows
unfolding secrets
secrets-add_folder true folder depth start tree = refl
secrets-add_folder false folder depth start tree =
    secrets-append tree.rows _ ∙ append-nil (secrets tree.rows)

secrets-add_secret :
    (hidden : Bool) (key : Text) (depth start : ℕ) (tree : Tree)
    → secrets (add_row hidden (record { id = key; dir = false; depth = depth }) start tree).rows
      ≡ secrets tree.rows ++ (if not hidden then key ∷ [] else [])
unfolding secrets
secrets-add_secret true key depth start tree = sym (append-nil (secrets tree.rows))
secrets-add_secret false key depth start tree = secrets-append tree.rows _

shown :
    (folded : Bool) (key : Text) (keys : List Text)
    → (if not folded then key ∷ [] else []) ++ keys ≡ (if not folded then key ∷ keys else keys)
shown true key keys = refl
shown false key keys = refl

module _ (filter : Text) (collapsed : List Text) where
  -- Folders open no secret.
  secrets-add_folders :
      (hidden : Bool) (depth start : ℕ) (folders : List Text) (tree : Tree)
      → secrets (add_folders filter collapsed hidden depth start folders tree).rows
        ≡ secrets tree.rows
  unfolding add_folders secrets
  secrets-add_folders hidden depth start [] tree = refl
  secrets-add_folders hidden depth start (folder ∷ folders) tree =
      secrets-add_folders (hidden || is_folded filter collapsed folder) (depth + 1) (length folder)
        folders _
      ∙ secrets-add_folder hidden folder depth start tree

  -- The shared folders are the key's own.
  shared-same :
      (folders branch : List Text)
      → take (count_shared folders branch) branch ≡ take (count_shared folders branch) folders
  unfolding count_shared
  shared-same [] branch = refl
  shared-same (f ∷ folders) [] = refl
  shared-same (f ∷ folders) (b ∷ branch) = elim (Bool-cases (text_eq b f)) [
    | inl e ↦
        let same = (text_eq_iff b f).0 e in rw (e, same) (ap (◌∷◌ f) (shared-same folders branch))
    | inr e ↦ rw e refl
  ]

  any_folded-split :
      (n : ℕ) (folders : List Text)
      → (any_folded filter collapsed (take n folders)
          || any_folded filter collapsed (drop n folders))
        ≡ any_folded filter collapsed folders
  unfolding any_folded
  any_folded-split zero folders = refl
  any_folded-split (suc n) [] = refl
  any_folded-split (suc n) (folder ∷ folders) = ground (arith, any_folded-split n folders)

  secrets-add_key :
      (branch : List Text) (key : Text) (tree : Tree)
      → secrets (add_key filter collapsed branch key tree).rows
        ≡ secrets tree.rows
          ++ (if not (any_folded filter collapsed (folders_behind [] key)) then key ∷ [] else [])
  unfolding add_key
  secrets-add_key branch key tree =
      let folders = folders_behind [] key in
      let shared = count_shared folders branch in
      let all =
        ap (λ l. any_folded filter collapsed l || any_folded filter collapsed (drop shared folders))
          (shared-same folders branch)
        ∙ any_folded-split shared folders in
      let hidden = any_folded filter collapsed (take shared branch) in
      let start = end_of_last (take shared folders) in
      let opened = add_folders filter collapsed hidden shared start (drop shared folders) tree in
      secrets-add_secret (hidden || any_folded filter collapsed (drop shared folders)) key
        (length folders) (end_of_last folders) opened
      ∙ ap (λ b. secrets opened.rows ++ (if not b then key ∷ [] else [])) all
      ∙ ap (λ s. s ++ (if not (any_folded filter collapsed folders) then key ∷ [] else []))
          (secrets-add_folders hidden shared start (drop shared folders) tree)

  secrets-rows_from :
      (keys branch : List Text) (tree : Tree)
      → secrets (rows_from filter collapsed keys branch tree).rows
        ≡ secrets tree.rows ++ visible filter collapsed keys
  unfolding rows_from visible
  secrets-rows_from [] branch tree = sym (append-nil (secrets tree.rows))
  secrets-rows_from (key ∷ keys) branch tree = elim (Bool-cases (contains_ignore_case key filter)) [
    | inr e ↦ rw (e, rows_from) (secrets-rows_from keys branch tree)
    | inl e ↦
        rw (e, rows_from)
          (secrets-rows_from keys (next_branch branch key)
              (add_key filter collapsed branch key tree)
            ∙ ap (λ s. s ++ visible filter collapsed keys) (secrets-add_key branch key tree)
            ∙ append_assoc (secrets tree.rows) _ (visible filter collapsed keys)
            ∙ ap (λ s. secrets tree.rows ++ s)
                (shown (any_folded filter collapsed (folders_behind [] key)) key
                  (visible filter collapsed keys)))
  ]

-- The rows that are secrets are exactly the keys that hold the filter and stand under no folded
-- folder, each once for each time that it is among the keys, and in their order.
pub build_rows-visible :
    (keys : List Text) (filter : Text) (collapsed : List Text)
    → secrets (build_rows keys filter collapsed).rows ≡ visible filter collapsed keys
unfolding build_rows secrets
build_rows-visible keys filter collapsed =
    secrets-rows_from filter collapsed keys [] (record { rows = []; labels = [] })
