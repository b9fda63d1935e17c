-- ===== src/TuiEdit/Rows.antt =====
-- The rows of the key tree (src/tui_edit.cpp).
pub mod Secrets
use secretov.Prelude.{
  ℕ, zero, suc, ◌+◌, ◌-◌, Option, none, some, Bool, true, false, not, ◌&&◌, ◌||◌, List, [], ◌∷◌,
  ◌++◌, take, drop, length, ltb, leb, ◌==◌, if◌then◌else◌,
}
use mathlib.Core.List.{reverse}
use secretov.Prelude.Sorting.{mem_text}
use secretov.Prelude.Text.{Text, text_eq, starts_with, is_empty}
use secretov.TuiEdit.Names.{folder_prefix, printable}

unfoldable pub to_lower : ℕ → ℕ
to_lower c = if leb b'A' c && leb c b'Z' then c + 32 else c

unfoldable pub same_start : Text → Text → Bool
same_start text [] = true
same_start [] (b ∷ needle) = false
same_start (c ∷ text) (b ∷ needle) = to_lower c == to_lower b && same_start text needle

-- std::search, at each place of the text
unfoldable pub search_ignore_case : Text → Text → Bool
search_ignore_case [] needle = is_empty needle
search_ignore_case (c ∷ text) needle =
    same_start (c ∷ text) needle || search_ignore_case text needle

unfoldable pub contains_ignore_case : Text → Text → Bool
contains_ignore_case text needle = if is_empty needle then true else search_ignore_case text needle

pub record Row : Type 0 where
  pub id : Text
  pub dir : Bool
  pub depth : ℕ

unfoldable pub is_folded : Text → List Text → Text → Bool
is_folded filter collapsed folder_id = is_empty filter && mem_text folder_id collapsed

-- "a/", "a/b/", ... for the key behind `front`
unfoldable pub folders_behind : Text → Text → List Text
folders_behind front [] = []
folders_behind front (c ∷ key) =
    let rest = folders_behind (front ++ c ∷ []) key in
    if c == b'/' then (front ++ c ∷ []) ∷ rest else rest

unfoldable pub count_shared : List Text → List Text → ℕ
count_shared (f ∷ folders) (b ∷ branch) =
    let more = count_shared folders branch in if text_eq b f then suc more else 0
count_shared _ _ = 0

unfoldable pub any_folded : Text → List Text → List Text → Bool
any_folded filter collapsed [] = false
any_folded filter collapsed (folder ∷ folders) =
    is_folded filter collapsed folder || any_folded filter collapsed folders

pub record Tree : Type 0 where
  pub rows : List Row
  pub labels : List Text

abbrev pub add_row : Bool → Row → ℕ → Tree → Tree
add_row hidden row name_start tree = if hidden then tree else record {
  rows = tree.rows ++ row ∷ [];
  labels = tree.labels ++ printable (drop name_start row.id) ∷ [];
}

-- The folders that open with this key, the one before them of `name_start` bytes.
unfoldable pub add_folders : Text → List Text → Bool → ℕ → ℕ → List Text → Tree → Tree
add_folders filter collapsed hidden depth name_start [] tree = tree
add_folders filter collapsed hidden depth name_start (folder ∷ folders) tree =
    add_folders filter collapsed (hidden || is_folded filter collapsed folder) (depth + 1)
      (length folder) folders
      (add_row hidden (record { id = folder; dir = true; depth = depth }) name_start tree)

-- folders[depth - 1].size(), and 0 for the first
abbrev pub end_of_last : List Text → ℕ
end_of_last [] = 0
end_of_last (folder ∷ []) = length folder
end_of_last (folder ∷ f ∷ folders) = end_of_last (f ∷ folders)

unfoldable pub add_key : Text → List Text → List Text → Text → Tree → Tree
add_key filter collapsed branch key tree =
    let folders = folders_behind [] key in
    let shared = count_shared folders branch in
    let hidden = any_folded filter collapsed (take shared branch) in
    let opened =
      add_folders filter collapsed hidden shared (end_of_last (take shared folders))
        (drop shared folders) tree in
    add_row (hidden || any_folded filter collapsed (drop shared folders))
      (record { id = key; dir = false; depth = length folders }) (end_of_last folders) opened

-- branch.resize(shared), and the folders that were pushed behind it
unfoldable pub next_branch : List Text → Text → List Text
next_branch branch key =
    let folders = folders_behind [] key in
    let shared = count_shared folders branch in take shared branch ++ drop shared folders

unfoldable pub rows_from : Text → List Text → List Text → List Text → Tree → Tree
rows_from filter collapsed [] branch tree = tree
rows_from filter collapsed (key ∷ keys) branch tree =
    let kept = contains_ignore_case key filter in
    rows_from filter collapsed keys (if kept then next_branch branch key else branch)
      (if kept then add_key filter collapsed branch key tree else tree)

unfoldable pub build_rows : List Text → Text → List Text → Tree
build_rows keys filter collapsed =
    rows_from filter collapsed keys [] (record { rows = []; labels = [] })

-- The first row of the depth, before any row above it in the tree.
unfoldable pub sibling : ℕ → List Row → List Text
sibling depth [] = []
sibling depth (row ∷ rows) =
    let later = sibling depth rows in
    if ltb row.depth depth then [] else if row.depth == depth then row.id ∷ [] else later

-- The loop over the enclosing folders; each is shorter than the one before.
unfoldable pub enclosing : ℕ → Text → List Text
enclosing zero folder = []
enclosing (suc fuel) [] = []
enclosing (suc fuel) (c ∷ folder) =
    (c ∷ folder) ∷ enclosing fuel (folder_prefix (take (length folder) (c ∷ folder)))

unfoldable pub first_outside : Text → List Row → List Text
first_outside deleted [] = []
first_outside deleted (row ∷ rows) =
    let above = first_outside deleted rows in
    if not (starts_with row.id deleted) then row.id ∷ [] else above

-- `above` are the rows before the selected one, the nearest first, and `below` those behind it.
unfoldable pub landing : List Row → Row → List Row → List Text
landing above selected below =
    sibling selected.depth below
    ++ (sibling selected.depth above
        ++ (enclosing (length selected.id + 1) (folder_prefix selected.id)
            ++ first_outside selected.id above))

-- rows[selected] has to be there.
unfoldable pub delete_landing : List Row → ℕ → List Text
delete_landing rows selected = elim (drop selected rows) [
  | [] ↦ []
  | row ∷ below ↦ landing (reverse (take selected rows)) row below
]
