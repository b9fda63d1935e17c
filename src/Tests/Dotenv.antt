-- ===== src/Tests/Dotenv.antt =====
-- The dotenv parser at small files.
use secretov.Prelude.{◌≡◌, refl, [], ◌∷◌}
use secretov.Prelude.Map.{lookup, insert}
use secretov.Prelude.Result.{ok}
use secretov.Prelude.Text.{Text, lit, text_eq, text_lt, starts_with, find_byte}
use secretov.Manifest.Dotenv.{
  drop_cr, is_blank, skip_blanks, pop_blanks, drop_export, find_hash, unquoted, parse_value,
  fresh_key, parse_assignment, parse_line, parse_settings, parse_dotenv,
}
use secretov.Manifest.Dotenv.Written.{AreNames, write_settings, parse_dotenv-write_settings}
use secretov.Manifest.EnvNames.{is_alpha, is_alnum, all_identifier, is_identifier}
use secretov.Manifest.Lines.{split_lines, onto_first, join_lines}
use secretov.Manifest.Parse.{KeyValues}

abbrev settings : KeyValues
settings = (lit "A_1", lit "say \"hi\"\n# \\") ∷ (lit "B", []) ∷ []

settings-AreNames : AreNames settings
unfolding is_identifier all_identifier is_alnum is_alpha lookup text_eq lit
settings-AreNames = (refl, refl, (refl, refl, tt))

parse_dotenv-write_settings_example :
    parse_dotenv (join_lines (write_settings settings)) ≡ ([], ok settings)
parse_dotenv-write_settings_example = parse_dotenv-write_settings settings settings-AreNames

-- A line of a shell, a comment, and a value that is cut at a comment.
abbrev file : Text
file = lit "export A = x y \r\n\n# note\nB=1 # one"

abbrev held : KeyValues
held = (lit "A", lit "x y") ∷ (lit "B", lit "1") ∷ []

file_read : (parse_dotenv file).1 ≡ ok held
unfolding parse_dotenv parse_settings parse_line parse_assignment fresh_key parse_value unquoted
    find_hash drop_export pop_blanks skip_blanks is_blank drop_cr split_lines onto_first
    is_identifier all_identifier is_alnum is_alpha lookup insert text_eq text_lt starts_with
    find_byte lit
file_read = refl
