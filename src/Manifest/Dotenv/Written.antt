-- ===== src/Manifest/Dotenv/Written.antt =====
-- A dotenv file can hold any value: what is written in double quotes is read back.
use secretov.Prelude.{
  ◌≡◌, refl, subst, ap, ◌∙◌, ℕ, suc, none, some, true, false, is_some, Bool-cases, inl, inr, List,
  [], ◌∷◌, ◌++◌, ◌==◌, if◌then◌else◌, take, drop, length, arith, append_assoc, take-append,
}
use secretov.Prelude.Map.{Map, lookup, insert, lookup-insert}
use secretov.Prelude.Result.{ok}
use secretov.Prelude.Text.{
  Text, lit, text_eq, text_eq→eq, text_eq_refl, starts_with, has_byte, find_byte,
}
use secretov.Manifest.Dotenv.{
  double_quote, backslash, drop_cr, is_blank, skip_blanks, pop_blanks, drop_export, unescape,
  closed, keep, scan, quoted, parse_value, fresh_key, Setting, parse_assignment, parse_line,
  parse_settings, parse_dotenv,
}
use secretov.Manifest.EnvNames.{is_alpha, is_alnum, all_identifier, is_identifier}
use secretov.Manifest.Lines.{join_lines, blank_or_comment}
use secretov.Manifest.Lines.Joined.{AreLines, split_lines-join_lines}
use secretov.Manifest.Parse.{KeyValues}

unfoldable pub escaped : ℕ → Text
escaped c =
    if c == b'\n'
    then backslash ∷ b'n' ∷ []
    else if c == backslash
    then backslash ∷ backslash ∷ []
    else if c == double_quote
    then backslash ∷ double_quote ∷ []
    else c ∷ []

unfoldable pub escape : Text → Text
escape [] = []
escape (c ∷ value) = escaped c ++ escape value

-- KEY="value"
unfoldable pub write_setting : Text × Text → Text
write_setting (key, value) = key ++ (b'=' ∷ (double_quote ∷ (escape value ++ (double_quote ∷ []))))

unfoldable pub write_settings : KeyValues → List Text
write_settings [] = []
write_settings (setting ∷ settings) = write_setting setting ∷ write_settings settings

scan-escape :
    (value rest : Text)
    → scan false double_quote (escape value ++ double_quote ∷ rest) ≡ closed value rest
unfolding scan escape escaped unescape keep
scan-escape [] rest = refl
scan-escape (c ∷ value) rest = ground (arith, scan-escape value rest)

has_byte-escape : (value : Text) → has_byte b'\n' (escape value) ≡ false
unfolding has_byte escape escaped
has_byte-escape [] = refl
has_byte-escape (c ∷ value) = ground (arith, has_byte-escape value)

has_byte-append :
    (b : ℕ) (s t : Text) → has_byte b s ≡ false → has_byte b t ≡ false → has_byte b (s ++ t) ≡ false
unfolding has_byte
has_byte-append b [] t h k = k
has_byte-append b (c ∷ s) t h k = ground (arith, has_byte-append b s t)

drop_cr-append :
    (s : Text) (c : ℕ) (t : Text) → drop_cr (c ∷ t) ≡ c ∷ t → drop_cr (s ++ (c ∷ t)) ≡ s ++ (c ∷ t)
unfolding drop_cr
drop_cr-append [] c t h = h
drop_cr-append (d ∷ []) c t h = ap (λ r. d ∷ r) h
drop_cr-append (d ∷ e ∷ s) c t h = ap (λ r. d ∷ r) (drop_cr-append (e ∷ s) c t h)

has_byte-identifier : (key : Text) → all_identifier key ≡ true → has_byte b'\n' key ≡ false
unfolding has_byte all_identifier is_alnum is_alpha
has_byte-identifier [] h = refl
has_byte-identifier (c ∷ key) h = ground (arith, has_byte-identifier key)

starts_with-identifier :
    (word key raw : Text)
    → has_byte b'=' word ≡ false
    → all_identifier key ≡ true
    → starts_with (word ++ b' ' ∷ []) (key ++ b'=' ∷ raw) ≡ false
unfolding has_byte all_identifier is_alnum is_alpha starts_with
starts_with-identifier [] [] raw w h = refl
starts_with-identifier [] (c ∷ key) raw w h = ground arith
starts_with-identifier (d ∷ word) [] raw w h = ground arith
starts_with-identifier (d ∷ word) (c ∷ key) raw w h =
    ground (arith, starts_with-identifier word key raw)

find_byte-identifier :
    (key raw : Text)
    → all_identifier key ≡ true
    → find_byte b'=' (key ++ b'=' ∷ raw) ≡ some (length key)
unfolding find_byte all_identifier is_alnum is_alpha
find_byte-identifier [] raw h = refl
find_byte-identifier (c ∷ key) raw h = ground (arith, find_byte-identifier key raw)

pop_blanks-identifier : (key : Text) → all_identifier key ≡ true → pop_blanks key ≡ key
unfolding pop_blanks is_blank all_identifier is_alnum is_alpha
pop_blanks-identifier [] h = refl
pop_blanks-identifier (c ∷ []) h = ground arith
pop_blanks-identifier (c ∷ d ∷ key) h = ground (arith, pop_blanks-identifier (d ∷ key))

drop-assigned : (key raw : Text) → drop (suc (length key)) (key ++ b'=' ∷ raw) ≡ raw
drop-assigned [] raw = refl
drop-assigned (c ∷ key) raw = drop-assigned key raw

parse_value-escape :
    (lineno : ℕ) (key value : Text)
    → parse_value lineno key (double_quote ∷ (escape value ++ (double_quote ∷ []))) ≡ ok (value, [])
unfolding parse_value skip_blanks is_blank quoted blank_or_comment
parse_value-escape lineno key value = ground (arith, scan-escape value [])

all_identifier-is_identifier : (key : Text) → is_identifier key ≡ true → all_identifier key ≡ true
unfolding is_identifier all_identifier
all_identifier-is_identifier [] h = refl
all_identifier-is_identifier (c ∷ key) h = ground arith

abbrev setting : Text → Text → Setting
setting key value = record { key = key; value = value; warnings = [] }

assigned :
    (lineno : ℕ) (seen : Map ℕ) (line key value : Text) (eq : ℕ)
    → find_byte b'=' line ≡ some eq
    → pop_blanks (take eq line) ≡ key
    → is_identifier key ≡ true
    → lookup key seen ≡ none
    → parse_value lineno key (drop (suc eq) line) ≡ ok (value, [])
    → parse_assignment lineno seen line ≡ ok (setting key value)
unfolding parse_assignment fresh_key
assigned lineno seen line key value eq found popped named new read =
    ground (arith, found, popped, named, new, read)

module _ (lineno : ℕ) (seen : Map ℕ) (key value : Text) (named : is_identifier key ≡ true)
    (new : lookup key seen ≡ none) where
  parse_assignment-write_setting :
      parse_assignment lineno seen (write_setting (key, value)) ≡ ok (setting key value)
  unfolding write_setting
  parse_assignment-write_setting =
      let all = all_identifier-is_identifier key named in
      let raw = double_quote ∷ (escape value ++ (double_quote ∷ [])) in
      assigned lineno seen (write_setting (key, value)) key value (length key)
        (find_byte-identifier key raw all)
        (ap pop_blanks (take-append (length key) key (b'=' ∷ raw) refl)
          ∙ pop_blanks-identifier key all)
        named new
        (ap (parse_value lineno key) (drop-assigned key raw) ∙ parse_value-escape lineno key value)

  uncut : drop_cr (write_setting (key, value)) ≡ write_setting (key, value)
  unfolding write_setting drop_cr
  uncut =
      subst (λ line. drop_cr line ≡ line)
        (append_assoc key (b'=' ∷ (double_quote ∷ escape value)) (double_quote ∷ []))
        (drop_cr-append (key ++ (b'=' ∷ (double_quote ∷ escape value))) double_quote [] refl)

  unexported : drop_export (write_setting (key, value)) ≡ write_setting (key, value)
  unfolding write_setting drop_export lit has_byte
  unexported =
      rw (starts_with-identifier (lit "export") key _ refl (all_identifier-is_identifier key named))
        refl

line_of :
    (lineno : ℕ) (seen : Map ℕ) (c : ℕ) (rest : Text) {setting : Setting}
    → is_blank c ≡ false
    → (c == b'#') ≡ false
    → drop_cr (c ∷ rest) ≡ c ∷ rest
    → drop_export (c ∷ rest) ≡ c ∷ rest
    → parse_assignment lineno seen (c ∷ rest) ≡ ok setting
    → parse_line lineno seen (c ∷ rest) ≡ ok (some setting)
unfolding parse_line skip_blanks
line_of lineno seen c rest {setting} b h uncut unexported read =
    ground (arith, b, h, uncut, unexported, read)

parse_line-write_setting :
    (lineno : ℕ) (seen : Map ℕ) (key value : Text)
    → is_identifier key ≡ true
    → lookup key seen ≡ none
    → parse_line lineno seen (write_setting (key, value)) ≡ ok (some (setting key value))
unfolding is_identifier write_setting is_alpha is_blank
parse_line-write_setting lineno seen [] value named new = absurd (cc named)
parse_line-write_setting lineno seen (c ∷ key) value named new =
    line_of lineno seen c _ (ground arith) (ground arith)
      (uncut lineno seen (c ∷ key) value named new)
      (unexported lineno seen (c ∷ key) value named new)
      (parse_assignment-write_setting lineno seen (c ∷ key) value named new)

-- The names are identifiers, each set once.
abbrev pub AreNames : KeyValues → Type 0
AreNames [] = Unit
AreNames ((key, value) ∷ settings) =
    (is_identifier key ≡ true) × (lookup key settings ≡ none) × AreNames settings

-- No key of `settings` has been read.
unfoldable pub AreNew : Map ℕ → KeyValues → Type 0
AreNew seen settings = (key : Text) → is_some (lookup key settings) ≡ true → lookup key seen ≡ none

AreNew-insert :
    (key value : Text) (lineno : ℕ) (seen : Map ℕ) (settings : KeyValues)
    → lookup key settings ≡ none
    → AreNew seen ((key, value) ∷ settings)
    → AreNew (insert key lineno seen) settings
unfolding AreNew lookup
AreNew-insert key value lineno seen settings once h other found =
    elim (Bool-cases (text_eq key other)) [
      | inl same ↦ absurd (cc (found, once, text_eq→eq key other same))
      | inr apart ↦ ground (
        arith,
        apart,
        found,
        h other (ground (arith, apart, found)),
        lookup-insert key other lineno seen,
      )
    ]

parse_settings-write_settings :
    (lineno : ℕ) (seen : Map ℕ) (settings : KeyValues)
    → AreNames settings
    → AreNew seen settings
    → parse_settings lineno seen (write_settings settings) ≡ ([], ok settings)
unfolding parse_settings write_settings AreNew lookup
parse_settings-write_settings lineno seen [] names new = refl
parse_settings-write_settings lineno seen ((key, value) ∷ settings) (named, once, names) new =
    rw
      (
        parse_settings,
        parse_line-write_setting lineno seen key value named
            (new key (ground (arith, text_eq_refl key))),
        parse_settings-write_settings (suc lineno) (insert key lineno seen) settings names
            (AreNew-insert key value lineno seen settings once new),
      )
      refl

write_settings-AreLines :
    (settings : KeyValues) → AreNames settings → AreLines (write_settings settings)
unfolding write_settings write_setting has_byte
write_settings-AreLines [] h = tt
write_settings-AreLines ((key, value) ∷ settings) (named, once, names) = (
  has_byte-append b'\n' key _ (has_byte-identifier key (all_identifier-is_identifier key named))
      (has_byte-append b'\n' (b'=' ∷ (double_quote ∷ escape value)) _ (has_byte-escape value) refl),
  write_settings-AreLines settings names,
)

-- A dotenv file can hold any list of values: where the names are identifiers and each is set once,
-- writing each value in double quotes, with the newlines, the backslashes and the double quotes
-- escaped, and reading the file gives the same names and values in the same order, without a
-- warning.
pub parse_dotenv-write_settings :
    (settings : KeyValues)
    → AreNames settings
    → parse_dotenv (join_lines (write_settings settings)) ≡ ([], ok settings)
unfolding parse_dotenv AreNew lookup
parse_dotenv-write_settings settings names =
    rw (split_lines-join_lines (write_settings settings) (write_settings-AreLines settings names))
      (parse_settings-write_settings 1 [] settings names (λ key found. refl))
