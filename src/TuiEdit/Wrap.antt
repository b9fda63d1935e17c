-- ===== src/TuiEdit/Wrap.antt =====
-- Texts wrapped to a width (src/tui_edit.cpp). The loops run on fuel: one round takes at least a
-- byte of the text, or empties the line at hand.
pub mod Kept
pub mod Lines
pub mod Words
use secretov.Prelude.{
  ℕ, zero, suc, ◌+◌, ◌-◌, ◌*◌, max, min, Option, none, some, Bool, true, false, not, ◌||◌, List, [],
  ◌∷◌, ◌++◌, map, take, drop, length, leb, ltb, if◌then◌else◌, replicate, is_nil,
}
use secretov.Prelude.Text.{Text, find_byte, is_empty}
use secretov.TuiEdit.Columns.{prefix_bytes, text_columns, ellipsize}

-- The do-while loop of wrap_lines over one line.
unfoldable pub cut_line : ℕ → ℕ → Text → List Text
cut_line zero width line = []
cut_line (suc fuel) width line =
    let piece = prefix_bytes line width in
    let more = cut_line fuel width (drop piece line) in
    take piece line ∷ (if is_empty (drop piece line) then [] else more)

unfoldable pub wrap_from : ℕ → ℕ → Text → List Text
wrap_from zero width text = []
wrap_from (suc fuel) width text = elim (find_byte b'\n' text) [
  | none ↦ cut_line (length text + 1) width text
  | some newline ↦
      cut_line (newline + 1) width (take newline text)
      ++ wrap_from fuel width (drop (suc newline) text)
]

unfoldable pub wrap_lines : Text → ℕ → List Text
wrap_lines text width = wrap_from (length text + 1) (max width 1) text

-- The lines that are finished, and the one at hand.
pub record Wrapped : Type 0 where
  pub lines : List Text
  pub line : Text

-- The inner loop of word_wrap.
unfoldable pub add_word : ℕ → ℕ → Wrapped → Text → Wrapped
add_word zero width s word = s
add_word (suc fuel) width s [] = s
add_word (suc fuel) width s (c ∷ word) =
    let needed =
      text_columns s.line + (if is_empty s.line then 0 else 1) + text_columns (c ∷ word) in
    let piece = prefix_bytes (c ∷ word) width in
    let flushed : Wrapped = record { lines = s.lines ++ s.line ∷ []; line = [] } in
    let cut : Wrapped = record s { lines = s.lines ++ take piece (c ∷ word) ∷ [] } in
    let rest =
      add_word fuel width (if is_empty s.line then cut else flushed)
        (if is_empty s.line then drop piece (c ∷ word) else c ∷ word) in
    if leb needed width
    then record s { line = (if is_empty s.line then [] else s.line ++ b' ' ∷ []) ++ c ∷ word }
    else rest

-- The end of the word at the front: the first space, or the end of the text.
abbrev pub word_end : Text → ℕ
word_end text = elim (find_byte b' ' text) [ none ↦ length text | some space ↦ space ]

unfoldable pub add_words : ℕ → ℕ → Wrapped → Text → Wrapped
add_words zero width s text = s
add_words (suc fuel) width s [] = s
add_words (suc fuel) width s (c ∷ text) =
    let word = take (word_end (c ∷ text)) (c ∷ text) in
    add_words fuel width (add_word (2 * length word + 2) width s word)
      (drop (suc (word_end (c ∷ text))) (c ∷ text))

unfoldable pub last_line : Wrapped → List Text
last_line s = if not (is_empty s.line) || is_nil s.lines then s.lines ++ s.line ∷ [] else s.lines

unfoldable pub word_wrap : Text → ℕ → List Text
word_wrap text width =
    last_line (add_words (length text + 1) (max width 1) (record { lines = []; line = [] }) text)

abbrev pub min_text_columns : ℕ
min_text_columns = 16

-- The first line behind the keys, the others behind an indent.
abbrev pub beside : Text → Text → List Text → List Text
beside key_cell indent [] = []
beside key_cell indent (piece ∷ pieces) =
    (key_cell ++ piece) ∷ map (λ (p : Text). indent ++ p) pieces

unfoldable pub help_row_lines : Text → Text → ℕ → ℕ → List Text
help_row_lines keys text keys_width width =
    let text_width = width - 2 - keys_width in
    if leb min_text_columns text_width
    then (let padding =
          if is_empty keys then keys_width else max (keys_width - text_columns keys) 1 in
        beside (replicate 2 b' ' ++ keys ++ replicate padding b' ')
          (replicate (2 + keys_width) b' ') (word_wrap text text_width))
    else (if is_empty keys then [] else (replicate 2 b' ' ++ ellipsize keys (width - 2)) ∷ [])
      ++ map (λ (p : Text). replicate 4 b' ' ++ p) (word_wrap text (width - 4))

unfoldable pub join_hints : Text → List Text → Text
join_hints line [] = line
join_hints line (hint ∷ hints) =
    join_hints (line ++ ((if is_empty line then [] else replicate 2 b' ') ++ hint)) hints

-- kept.erase(kept.end() - 2)
unfoldable pub drop_before_last : List Text → List Text
drop_before_last [] = []
drop_before_last (a ∷ []) = a ∷ []
drop_before_last (a ∷ b ∷ []) = b ∷ []
drop_before_last (a ∷ b ∷ c ∷ hints) = a ∷ drop_before_last (b ∷ c ∷ hints)

unfoldable pub fit_from : ℕ → List Text → ℕ → List Text
fit_from zero kept width = kept
fit_from (suc fuel) kept width =
    let fewer = fit_from fuel (drop_before_last kept) width in
    if ltb 1 (length kept)
    then (if ltb width (text_columns (join_hints [] kept)) then fewer else kept)
    else kept

unfoldable pub fit_hints : List Text → ℕ → Text
fit_hints hints width = join_hints [] (fit_from (length hints) hints width)
