-- ===== src/Manifest/Edit.antt =====
-- Entries added to a manifest's text (manifest_with_entries of src/manifest.cpp).
pub mod Kept
pub mod Carried
use secretov.Prelude.{
  ℕ, zero, suc, ◌+◌, Option, none, some, Bool, true, false, not, ◌||◌, ◌&&◌, List, [], ◌∷◌, ◌++◌,
  ltb, if◌then◌else◌, is_nil, length,
}
use secretov.Prelude.Map.{lookup}
use secretov.Prelude.Result.{Result, ok, err, ◌>>=◌}
use secretov.Prelude.Text.{Text, lit, text_eq}
use secretov.Manifest.Blocks.{
  between, find_child, insert_point, spaces, insert_lines, Block, ensure_block,
}
use secretov.Manifest.Document.{parse_manifest}
use secretov.Manifest.EnvNames.{is_identifier}
use secretov.Manifest.Lines.{split_lines, join_lines, indent_of, blank_or_comment}
use secretov.Manifest.Parse.{SecretEntry, KeyValues, Manifest}
use secretov.Manifest.Scopes.{require_segment, scoped_key}
use secretov.Manifest.Yaml.{Yaml}

unfoldable pub check_names : KeyValues → Result Text (Unit {0})
check_names [] = ok tt
check_names ((name, var) ∷ name_to_var) =
    if not (is_identifier var)
    then err (lit "invalid environment variable name '" ++ var ++ lit "'")
    else do _ ← require_segment name (lit "secret name"); check_names name_to_var

unfoldable pub first_step : List Text → ℕ
first_step [] = 2
first_step (line ∷ lines) =
    let rest = first_step lines in
    if not (blank_or_comment line) && ltb 0 (indent_of line) then indent_of line else rest

abbrev pub or_header : List Text → Text → List Text
or_header lines project =
    if is_nil lines
    then lit "version: \"1\"" ∷ (lit "name: " ++ project) ∷ lit "env:" ∷ []
    else lines

unfoldable pub value_indent_from : List Text → ℕ → ℕ → ℕ
value_indent_from [] name_indent otherwise = otherwise
value_indent_from (line ∷ lines) name_indent otherwise =
    let rest = value_indent_from lines name_indent otherwise in
    if not (blank_or_comment line) && ltb name_indent (indent_of line) then indent_of line else rest

-- The lines of the entries that the block has not.
unfoldable pub added_entries : List Text → Block → ℕ → KeyValues → Result Text (List Text)
added_entries lines secrets_block value_indent [] = ok []
added_entries lines secrets_block value_indent ((name, var) ∷ name_to_var) = do
  found ←
      find_child lines (suc secrets_block.key_line) secrets_block.end secrets_block.entry_indent
        name
  added ← added_entries lines secrets_block value_indent name_to_var
  elim found [
    | some at ↦ ok added
    | none ↦ ok (
        (spaces secrets_block.entry_indent ++ (name ++ lit ":"))
        ∷ (spaces value_indent ++ (lit "env_var_name: " ++ var))
        ∷ added)
  ]

-- The lines of the edited text.
unfoldable pub edited_lines : List Text → Text → Text → KeyValues → Result Text (List Text)
edited_lines split project env name_to_var = do
  let step = first_step split
  let lines = or_header split project
  (rooted, env_root) ← ensure_block lines 0 (length lines) 0 step (lit "env")
  (framed, env_block) ←
      ensure_block rooted (suc env_root.key_line) env_root.end env_root.entry_indent step env
  (held, secrets_block) ←
      ensure_block framed (suc env_block.key_line) env_block.end env_block.entry_indent step
        (lit "secrets")
  let first = suc secrets_block.key_line
  let name_indent = secrets_block.entry_indent
  let value_indent =
      value_indent_from (between first secrets_block.end held) name_indent (name_indent + step)
  added ← added_entries held secrets_block value_indent name_to_var
  ok (insert_lines (insert_point held first secrets_block.end name_indent) added held)

unfoldable pub entry_named : Text → List SecretEntry → Option SecretEntry
entry_named name [] = none
entry_named name (candidate ∷ entries) =
    let rest = entry_named name entries in
    if text_eq candidate.name name then some candidate else rest

unfoldable pub differs : Text → Text → Result Text (Unit {0})
differs env name = err (
    lit "manifest entry '"
    ++ name
    ++ lit "' in env '"
    ++ env
    ++ lit "' already exists with a different key or env_var_name; fix it by hand")

unfoldable pub check_entry : Text → Text → Text → Text → SecretEntry → Result Text (Unit {0})
check_entry env project name var entry =
    if not (text_eq entry.env_var var) then differs env name else do
      key ← scoped_key env project name
      if not (text_eq entry.path key) then differs env name else ok tt

unfoldable pub check_entries : Text → Text → List SecretEntry → KeyValues → Result Text (Unit {0})
check_entries env project entries [] = ok tt
check_entries env project entries ((name, var) ∷ name_to_var) = elim (entry_named name entries) [
  | none ↦ err (
      lit "manifest edit failed: entry '"
      ++ name
      ++ lit "' not present after insertion; add it by hand")
  | some entry ↦ do
    _ ← check_entry env project name var entry
    check_entries env project entries name_to_var
]

unfoldable pub check_edit : Manifest → Text → Text → KeyValues → Result Text (Unit {0})
check_edit check project env name_to_var =
    if not (text_eq check.project project)
    then err (
        lit "manifest names project '"
        ++ check.project
        ++ lit "', expected '"
        ++ project
        ++ lit "'")
    else elim (lookup env check.envs) [
      | none ↦ err (lit "manifest edit failed: env '" ++ env ++ lit "' not present")
      | some entries ↦ check_entries env project entries name_to_var
    ]

module _ (y : Yaml) where
  unfoldable pub manifest_with_entries : Text → Text → Text → KeyValues → Result Text Text
  manifest_with_entries text project env name_to_var = do
    _ ← require_segment env (lit "environment")
    _ ← check_names name_to_var
    lines ← edited_lines (split_lines text) project env name_to_var
    let out = join_lines lines
    check ← parse_manifest y out (lit "<edited manifest>")
    _ ← check_edit check project env name_to_var
    ok out
