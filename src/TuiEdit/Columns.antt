-- ===== src/TuiEdit/Columns.antt =====
-- Columns of a text, and texts cut to a width (src/tui_edit.cpp).
pub mod Bounds
use secretov.Prelude.{
  suc, ℕ, ◌+◌, ◌-◌, ◌/◌, ◌%◌, Bool, not, ◌&&◌, [], ◌∷◌, ◌++◌, take, drop, leb, ◌==◌, if◌then◌else◌,
}
use secretov.Prelude.Text.{Text}

-- (c & 0xC0) != 0x80
unfoldable pub starts_code_point : ℕ → Bool
starts_code_point c = not (c / 64 % 4 == 2)

unfoldable pub prefix_from : ℕ → ℕ → Text → ℕ
prefix_from width columns [] = 0
prefix_from width columns (c ∷ text) =
    let rest = prefix_from width (if starts_code_point c then columns + 1 else columns) text in
    if starts_code_point c && columns == width then 0 else suc rest

unfoldable pub prefix_bytes : Text → ℕ → ℕ
unfolding prefix_from
prefix_bytes text width = prefix_from width 0 text

unfoldable pub text_columns : Text → ℕ
text_columns [] = 0
text_columns (c ∷ text) = (if starts_code_point c then 1 else 0) + text_columns text

-- "…" in UTF-8
abbrev pub dots : Text
dots = 226 ∷ 128 ∷ 166 ∷ []

unfoldable pub ellipsize : Text → ℕ → Text
ellipsize text width =
    if leb (text_columns text) width
    then text
    else if width == 0
    then []
    else take (prefix_bytes text (width - 1)) text ++ dots

unfoldable pub ellipsize_middle : Text → ℕ → Text
ellipsize_middle text width =
    let columns = text_columns text in
    if leb columns width
    then text
    else if width == 0
    then []
    else let head = (width - 1) / 2 in
      let tail = width - 1 - head in
      take (prefix_bytes text head) text ++ (dots ++ drop (prefix_bytes text (columns - tail)) text)
