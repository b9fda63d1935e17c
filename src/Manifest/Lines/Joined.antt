-- ===== src/Manifest/Lines/Joined.antt =====
-- Lines that are joined are split at the same places.
use secretov.Prelude.{◌≡◌, refl, ap, ◌∙◌, false, List, [], ◌∷◌, ◌++◌, arith}
use secretov.Prelude.Text.{Text, has_byte}
use secretov.Manifest.Lines.{split_lines, join_lines, onto_first}

pub split_lines_line :
    (line text : Text)
    → has_byte b'\n' line ≡ false
    → split_lines (line ++ b'\n' ∷ text) ≡ line ∷ split_lines text
unfolding split_lines has_byte onto_first
split_lines_line [] text h = refl
split_lines_line (c ∷ line) text h = ground (arith, split_lines_line line text)

abbrev pub AreLines : List Text → Type 0
AreLines [] = Unit
AreLines (line ∷ lines) = (has_byte b'\n' line ≡ false) × AreLines lines

pub split_lines-join_lines :
    (lines : List Text) → AreLines lines → split_lines (join_lines lines) ≡ lines
unfolding join_lines split_lines
split_lines-join_lines [] h = refl
split_lines-join_lines (line ∷ lines) (h, hs) =
    split_lines_line line (join_lines lines) h
    ∙ ap (λ ls. line ∷ ls) (split_lines-join_lines lines hs)
