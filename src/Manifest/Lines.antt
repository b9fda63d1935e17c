-- ===== src/Manifest/Lines.antt =====
-- The lines of a text, as the dotenv parser and the manifest's edits see them (src/manifest.cpp).
pub mod Joined
use secretov.Prelude.{
  ℕ, zero, suc, Bool, true, false, ◌||◌, List, [], ◌∷◌, ◌++◌, ◌==◌, if◌then◌else◌,
}
use secretov.Prelude.Text.{Text}

-- A byte in front of the first line that follows it.
unfoldable pub onto_first : ℕ → List Text → List Text
onto_first c [] = (c ∷ []) ∷ []
onto_first c (line ∷ lines) = (c ∷ line) ∷ lines

-- std::getline: a newline at the end starts no line.
unfoldable pub split_lines : Text → List Text
split_lines [] = []
split_lines (c ∷ text) =
    let rest = split_lines text in if c == b'\n' then [] ∷ rest else onto_first c rest

unfoldable pub join_lines : List Text → Text
join_lines [] = []
join_lines (line ∷ lines) = line ++ b'\n' ∷ join_lines lines

unfoldable pub indent_of : Text → ℕ
indent_of [] = 0
indent_of (c ∷ line) = if c == b' ' then suc (indent_of line) else 0

unfoldable pub blank_or_comment : Text → Bool
blank_or_comment [] = true
blank_or_comment (c ∷ line) =
    let rest = blank_or_comment line in
    if c == b'#' then true else if c == b' ' || c == b'\t' || c == b'\r' then rest else false
