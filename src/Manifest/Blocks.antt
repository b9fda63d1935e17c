-- ===== src/Manifest/Blocks.antt =====
-- The blocks of a manifest's text, found and made by their indentation (src/manifest.cpp).
use secretov.Prelude.{
  ℕ, suc, ◌+◌, ◌-◌, Option, none, some, Bool, not, ◌||◌, ◌&&◌, List, [], ◌∷◌, ◌++◌, ◌==◌, leb,
  if◌then◌else◌, take, drop, length, replicate,
}
use secretov.Prelude.Result.{Result, ok, err, ◌>>=◌}
use secretov.Prelude.Text.{Text, lit, starts_with, has_byte}
use secretov.Manifest.Cloud.{front_is}
use secretov.Manifest.Lines.{indent_of, blank_or_comment}

-- The lines [begin, end).
abbrev pub between : ℕ → ℕ → List Text → List Text
between begin end lines = take (end - begin) (drop begin lines)

-- The loop at line i, with the lines from there.
unfoldable pub end_from : ℕ → List Text → ℕ → ℕ
end_from i [] indent = i
end_from i (line ∷ lines) indent =
    let rest = end_from (suc i) lines indent in
    if not (blank_or_comment line) && leb (indent_of line) indent then i else rest

unfoldable pub block_end : List Text → ℕ → ℕ → ℕ
block_end lines key_line indent = end_from (suc key_line) (drop (suc key_line) lines) indent

unfoldable pub first_indent : List Text → Option ℕ
first_indent [] = none
first_indent (line ∷ lines) =
    let rest = first_indent lines in
    if not (blank_or_comment line) then some (indent_of line) else rest

-- none: -1
unfoldable pub child_indent : List Text → ℕ → ℕ → Option ℕ
child_indent lines begin end = first_indent (between begin end lines)

-- body starts with the key and a colon.
unfoldable pub names_key : Text → Text → Bool
names_key key body = starts_with key body && front_is (λ c. c == b':') (drop (length key) body)

unfoldable pub child_from : ℕ → List Text → ℕ → Text → Result Text (Option ℕ)
child_from i [] indent key = ok none
child_from i (line ∷ lines) indent key =
    let later = child_from (suc i) lines indent key in
    let body = drop indent line in
    if blank_or_comment line || not (indent_of line == indent)
    then later
    else if not (names_key key body)
    then later
    else if not (blank_or_comment (drop (suc (length key)) body))
    then err (
        lit "manifest key '" ++ key ++ lit "' has an inline value; cannot insert entries textually")
    else ok (some i)

unfoldable pub find_child : List Text → ℕ → ℕ → ℕ → Text → Result Text (Option ℕ)
find_child lines begin end indent key = child_from begin (between begin end lines) indent key

-- A line that the insertion goes behind.
unfoldable pub is_content : Text → ℕ → Bool
is_content line min_indent =
    not (blank_or_comment line)
    || ((has_byte b'#' line && blank_or_comment line) && leb min_indent (indent_of line))

unfoldable pub point_from : ℕ → ℕ → List Text → ℕ → ℕ
point_from at i [] min_indent = at
point_from at i (line ∷ lines) min_indent =
    point_from (if is_content line min_indent then suc i else at) (suc i) lines min_indent

unfoldable pub insert_point : List Text → ℕ → ℕ → ℕ → ℕ
insert_point lines begin end min_indent =
    point_from begin begin (between begin end lines) min_indent

abbrev pub spaces : ℕ → Text
spaces n = replicate n b' '

-- lines.insert(lines.begin() + at, added.begin(), added.end())
unfoldable pub insert_lines : ℕ → List Text → List Text → List Text
insert_lines at added lines = take at lines ++ (added ++ drop at lines)

pub record Block : Type 0 where
  pub key_line : ℕ
  pub end : ℕ
  pub entry_indent : ℕ

unfoldable pub indent_or : Option ℕ → ℕ → ℕ
indent_or none otherwise = otherwise
indent_or (some indent) otherwise = indent

unfoldable pub block_at : List Text → ℕ → ℕ → ℕ → Block
block_at lines key_line indent step =
    let block_end_line = block_end lines key_line indent in
    record {
      key_line = key_line;
      end = block_end_line;
      entry_indent = indent_or (child_indent lines (suc key_line) block_end_line) (indent + step);
    }

-- The lines with the block's key in its place: where it is, or inserted.
unfoldable pub ensure_key : List Text → ℕ → ℕ → ℕ → Text → Option ℕ → List Text × ℕ
ensure_key lines begin end indent key (some key_line) = (lines, key_line)
ensure_key lines begin end indent key none =
    let key_line = insert_point lines begin end indent in
    (insert_lines key_line ((spaces indent ++ (key ++ lit ":")) ∷ []) lines, key_line)

unfoldable pub ensure_block : List Text → ℕ → ℕ → ℕ → ℕ → Text → Result Text (List Text × Block)
ensure_block lines begin end indent step key = do
  found ← find_child lines begin end indent key
  let placed = ensure_key lines begin end indent key found
  ok (placed.0, block_at placed.0 placed.1 indent step)
