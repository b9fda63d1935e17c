-- ===== src/Manifest/Dotenv.antt =====
-- The dotenv parser (parse_dotenv of src/manifest.cpp).
pub mod Written
pub mod Named
use secretov.Prelude.{
  ℕ, zero, suc, Option, none, some, Bool, true, false, not, ◌||◌, ◌&&◌, List, [], ◌∷◌, ◌++◌, ◌==◌,
  if◌then◌else◌, take, drop,
}
use secretov.Prelude.Map.{Map, lookup, insert}
use secretov.Prelude.Result.{Result, ok, err, ◌>>=◌}
use secretov.Prelude.Text.{Text, lit, starts_with, find_byte, to_string}
use secretov.Manifest.EnvNames.{is_identifier}
use secretov.Manifest.Lines.{split_lines, blank_or_comment}
use secretov.Manifest.Parse.{KeyValues}

abbrev pub double_quote : ℕ
double_quote = 34

abbrev pub single_quote : ℕ
single_quote = 39

abbrev pub backslash : ℕ
backslash = 92

unfoldable pub drop_cr : Text → Text
drop_cr [] = []
drop_cr (c ∷ []) = if c == b'\r' then [] else c ∷ []
drop_cr (c ∷ d ∷ line) = c ∷ drop_cr (d ∷ line)

unfoldable pub is_blank : ℕ → Bool
is_blank c = c == b' ' || c == b'\t'

-- From the first byte that is not blank.
unfoldable pub skip_blanks : Text → Text
skip_blanks [] = []
skip_blanks (c ∷ line) = let rest = skip_blanks line in if is_blank c then rest else c ∷ line

unfoldable pub pop_blanks : Text → Text
pop_blanks [] = []
pop_blanks (c ∷ text) = elim (pop_blanks text) [
  | [] ↦ if is_blank c then [] else c ∷ []
  | d ∷ rest ↦ c ∷ d ∷ rest
]

unfoldable pub drop_export : Text → Text
drop_export line = if starts_with (lit "export ") line then drop 7 line else line

abbrev pub on_line : ℕ → Text → Text
on_line lineno what = lit "dotenv line " ++ to_string lineno ++ lit ": " ++ what

unfoldable pub unescape : ℕ → Option ℕ
unescape c =
    if c == b'n'
    then some b'\n'
    else if c == b't'
    then some b'\t'
    else if c == b'r'
    then some b'\r'
    else if c == backslash
    then some backslash
    else if c == double_quote
    then some double_quote
    else none

-- What is found behind an opening quote.
pub data Scanned : Type 0 where
  closed : Text → Text → Scanned
  unterminated : Scanned
  unsupported : ℕ → Scanned

unfoldable pub keep : ℕ → Scanned → Scanned
keep c (closed value rest) = closed (c ∷ value) rest
keep c unterminated = unterminated
keep c (unsupported escaped) = unsupported escaped

-- The flag: a backslash has just been read.
unfoldable pub scan : Bool → ℕ → Text → Scanned
scan _ quote [] = unterminated
scan true quote (c ∷ raw) = elim (unescape c) [
  | none ↦ unsupported c
  | some d ↦ keep d (scan false quote raw)
]
scan false quote (c ∷ raw) = elim (quote == double_quote && c == backslash) [
  | true ↦ scan true quote raw
  | false ↦ elim (c == quote) [ true ↦ closed [] raw | false ↦ keep c (scan false quote raw) ]
]

unfoldable pub quoted : ℕ → Text → ℕ → Text → Result Text (Text × List Text)
quoted lineno key quote raw = elim (scan false quote raw) [
  | unsupported c ↦ err (
      on_line lineno (
        lit "unsupported escape '"
        ++ (backslash ∷ c ∷ [])
        ++ lit "' in double-quoted value of '"
        ++ key
        ++ lit "'"))
  | unterminated ↦ err (on_line lineno (lit "unterminated quote"))
  | closed value rest ↦
      if not (blank_or_comment rest)
      then err (on_line lineno (lit "unexpected text after closing quote"))
      else ok (value, [])
]

-- value.find(" #")
unfoldable pub find_hash : Text → Option ℕ
find_hash [] = none
find_hash (c ∷ value) = elim (starts_with (lit " #") (c ∷ value)) [
  | true ↦ some 0
  | false ↦ elim (find_hash value) [ none ↦ none | some at ↦ some (suc at) ]
]

unfoldable pub unquoted : ℕ → Text → Text → Text × List Text
unquoted lineno key value = elim (find_hash value) [
  | none ↦ (pop_blanks value, [])
  | some hash ↦ (
    pop_blanks (take hash value),
    (lit "warning: dotenv line "
          ++ to_string lineno
          ++ lit ": stripped a trailing ' #' comment from '"
          ++ key
          ++ lit "'; quote the value if '#' belongs to it\n")
        ∷ [],
  )
]

-- A value with the warnings about it.
unfoldable pub parse_value : ℕ → Text → Text → Result Text (Text × List Text)
parse_value lineno key raw = elim (skip_blanks raw) [
  | [] ↦ ok ([], [])
  | c ∷ value ↦
      if c == double_quote || c == single_quote
      then quoted lineno key c value
      else ok (unquoted lineno key (c ∷ value))
]

unfoldable pub fresh_key : ℕ → Map ℕ → Text → Result Text Text
fresh_key lineno first_line_of_key key =
    if not (is_identifier key)
    then err (on_line lineno (lit "invalid key '" ++ key ++ lit "'"))
    else elim (lookup key first_line_of_key) [
      | none ↦ ok key
      | some seen ↦ err (
          on_line lineno (
            lit "duplicate key '"
            ++ key
            ++ lit "' (first set on line "
            ++ to_string seen
            ++ lit ")"))
    ]

pub record Setting : Type 0 where
  pub key : Text
  pub value : Text
  pub warnings : List Text

unfoldable pub parse_assignment : ℕ → Map ℕ → Text → Result Text Setting
parse_assignment lineno first_line_of_key line = elim (find_byte b'=' line) [
  | none ↦ err (on_line lineno (lit "expected KEY=VALUE"))
  | some eq ↦ do
    key ← fresh_key lineno first_line_of_key (pop_blanks (take eq line))
    read ← parse_value lineno key (drop (suc eq) line)
    ok (record { key = key; value = read.0; warnings = read.1 })
]

-- none: a blank line or a comment.
unfoldable pub parse_line : ℕ → Map ℕ → Text → Result Text (Option Setting)
parse_line lineno first_line_of_key line = elim (skip_blanks (drop_cr line)) [
  | [] ↦ ok none
  | c ∷ rest ↦ if c == b'#' then ok none else do
    setting ← parse_assignment lineno first_line_of_key (drop_export (c ∷ rest))
    ok (some setting)
]

-- The warnings are written as the lines are read, before an exception too.
unfoldable pub parse_settings : ℕ → Map ℕ → List Text → List Text × Result Text KeyValues
parse_settings lineno first_line_of_key [] = ([], ok [])
parse_settings lineno first_line_of_key (line ∷ lines) =
    elim (parse_line lineno first_line_of_key line) [
      | err what ↦ ([], err what)
      | ok none ↦ parse_settings (suc lineno) first_line_of_key lines
      | ok (some setting) ↦
          let (warnings, out) =
            parse_settings (suc lineno) (insert setting.key lineno first_line_of_key) lines in
          (setting.warnings ++ warnings, do rest ← out; ok ((setting.key, setting.value) ∷ rest))
    ]

unfoldable pub parse_dotenv : Text → List Text × Result Text KeyValues
parse_dotenv text = parse_settings 1 [] (split_lines text)
