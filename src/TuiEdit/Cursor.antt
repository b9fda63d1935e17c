-- ===== src/TuiEdit/Cursor.antt =====
-- Edits at a cursor, a byte offset into the text (src/tui_edit.cpp).
pub mod OnLine
use secretov.Prelude.{
  ℕ, zero, suc, ◌+◌, ◌-◌, Bool, not, ◌||◌, List, [], ◌∷◌, ◌++◌, take, drop, length, min, ◌==◌,
  if◌then◌else◌,
}
use secretov.Prelude.Text.{Text}
use secretov.TuiEdit.Columns.{starts_code_point}
use secretov.TuiEdit.Names.{is_space}

pub record Edited : Type 0 where
  pub text : Text
  pub cursor : ℕ

unfoldable pub clamped : Text → ℕ → ℕ
clamped text cursor = min cursor (length text)

-- text[n], where it is inside
abbrev pub byte_at : Text → ℕ → ℕ
byte_at [] n = 0
byte_at (c ∷ text) zero = c
byte_at (c ∷ text) (suc n) = byte_at text n

-- while (position > 0 && test(text[position - 1])) --position;
unfoldable pub back_while : (ℕ → Bool) → Text → ℕ → ℕ
back_while test text zero = zero
back_while test text (suc n) =
    let before = back_while test text n in if test (byte_at text n) then before else suc n

-- while (position < text.size() && test(text[position])) ++position; on what is behind `position`
unfoldable pub span : (ℕ → Bool) → Text → ℕ
span test [] = 0
span test (c ∷ text) = let more = span test text in if test c then suc more else 0

unfoldable pub is_word_separator : ℕ → Bool
is_word_separator c = is_space c || c == b'/'

abbrev pub not_newline : ℕ → Bool
not_newline c = not (c == b'\n')

unfoldable pub insert_at_cursor : Text → ℕ → Text → Edited
insert_at_cursor text cursor inserted =
    let position = clamped text cursor in
    record {
      text = take position text ++ (inserted ++ drop position text);
      cursor = position + length inserted;
    }

-- The bytes up to the start of the last code point.
unfoldable pub erase_last_code_point : Text → Text
erase_last_code_point text =
    take (back_while (λ c. not (starts_code_point c)) text (length text) - 1) text

unfoldable pub line_start : Text → ℕ → ℕ
line_start text cursor = back_while not_newline text (clamped text cursor)

unfoldable pub line_end : Text → ℕ → ℕ
line_end text cursor =
    let position = clamped text cursor in position + span not_newline (drop position text)

unfoldable pub erase_to_line_start : Text → ℕ → Edited
erase_to_line_start text cursor =
    let start = line_start text cursor in
    record { text = take start text ++ drop (clamped text cursor) text; cursor = start }

unfoldable pub erase_word_before : Text → ℕ → Edited
erase_word_before text cursor =
    let end = clamped text cursor in
    let start =
      back_while (λ c. not (is_word_separator c)) text (back_while is_word_separator text end) in
    record { text = take start text ++ drop end text; cursor = start }
