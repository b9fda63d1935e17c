-- ===== src/Tests/TuiEdit.antt =====
-- The text helpers of the terminal interface at small texts.
use secretov.Prelude.{◌≡◌, ◌<◌, max, false, List, [], ◌∷◌, length}
use secretov.Prelude.Text.{Text}
use secretov.TuiEdit.Columns.{text_columns}
use secretov.TuiEdit.Wrap.{wrap_lines, word_wrap}
use secretov.TuiEdit.Wrap.Kept.{without, flat}
use secretov.TuiEdit.Wrap.Lines.{AreNarrow, wrap_lines_lem}
use secretov.TuiEdit.Wrap.Words.{word_wrap_lem}
use secretov.TuiEdit.Names.{has_control_char, printable}
use secretov.TuiEdit.Names.Drawn.{printable_lem}
use secretov.TuiEdit.Rows.{build_rows}
use secretov.TuiEdit.Rows.Secrets.{secrets, visible, build_rows-visible}

-- "ab cd\n", "é", a two-byte control and a tab
abbrev text : Text
text = 97 ∷ 98 ∷ 32 ∷ 99 ∷ 100 ∷ 10 ∷ 195 ∷ 169 ∷ 194 ∷ 133 ∷ 9 ∷ []

wrap_lines_lem_example :
    AreNarrow (max 3 1) (wrap_lines text 3) × (flat (wrap_lines text 3) ≡ without b'\n' text)
wrap_lines_lem_example = wrap_lines_lem text 3

word_wrap_lem_example :
    AreNarrow (max 3 1) (word_wrap text 3)
    × (0 < length (word_wrap text 3))
    × (without b' ' (flat (word_wrap text 3)) ≡ without b' ' text)
word_wrap_lem_example = word_wrap_lem text 3

printable_lem_example :
    (has_control_char (printable text) ≡ false)
    × (text_columns (printable text) ≡ text_columns text)
printable_lem_example = printable_lem text

-- "a/b", "a/c" and "d", with the folder "a/" folded
abbrev keys : List Text
keys = (97 ∷ 47 ∷ 98 ∷ []) ∷ (97 ∷ 47 ∷ 99 ∷ []) ∷ (100 ∷ []) ∷ []

abbrev folded : List Text
folded = (97 ∷ 47 ∷ []) ∷ []

build_rows-visible_example : secrets (build_rows keys [] folded).rows ≡ visible [] folded keys
build_rows-visible_example = build_rows-visible keys [] folded
