-- ===== src/TuiEdit/Names.antt =====
-- Names of keys, and texts made fit to be drawn (src/tui_edit.cpp).
pub mod Drawn
use secretov.Prelude.{
  ℕ, suc, Option, none, some, Bool, true, false, not, ◌&&◌, ◌||◌, List, [], ◌∷◌, ◌++◌, take, ltb,
  leb, ◌==◌, if◌then◌else◌,
}
use secretov.Prelude.Text.{Text, lit, is_empty, rfind_byte, starts_with}

unfoldable pub is_space : ℕ → Bool
is_space c = c == b' ' || c == 9 || c == b'\n' || c == 13 || c == 11 || c == 12

unfoldable pub trim_front : Text → Text
trim_front [] = []
trim_front (c ∷ text) = if is_space c then trim_front text else c ∷ text

unfoldable pub trim_back : Text → Text
trim_back [] = []
trim_back (c ∷ text) = elim (trim_back text) [
  | [] ↦ if is_space c then [] else c ∷ []
  | d ∷ rest ↦ c ∷ d ∷ rest
]

unfoldable pub trim_key_name : Text → Text
trim_key_name name = trim_back (trim_front name)

-- The byte that makes a two-byte control (U+0080..U+009F) behind 0xC2.
unfoldable pub is_c1_tail : ℕ → Bool
is_c1_tail d = leb 128 d && leb d 159

unfoldable pub is_c1_at : Text → Bool
is_c1_at [] = false
is_c1_at (c ∷ []) = false
is_c1_at (c ∷ d ∷ text) = c == 194 && is_c1_tail d

-- byte < 0x20 || byte == 0x7f
unfoldable pub is_control : ℕ → Bool
is_control byte = ltb byte 32 || byte == 127

unfoldable pub has_control_char : Text → Bool
has_control_char [] = false
has_control_char (c ∷ text) = (is_control c || is_c1_at (c ∷ text)) || has_control_char text

-- name.find("//") != npos
unfoldable pub has_double_slash : Text → Bool
has_double_slash [] = false
has_double_slash (c ∷ text) = starts_with (b'/' ∷ b'/' ∷ []) (c ∷ text) || has_double_slash text

unfoldable pub ends_in_slash : Text → Bool
ends_in_slash [] = false
ends_in_slash (c ∷ []) = c == b'/'
ends_in_slash (c ∷ d ∷ text) = ends_in_slash (d ∷ text)

unfoldable pub key_name_error : Text → Option Text
key_name_error name =
    if is_empty name
    then some (lit "name required")
    else if has_control_char name
    then some (lit "name can't contain control characters")
    else if starts_with (b'/' ∷ []) name
    then some (lit "name can't start with '/'")
    else if ends_in_slash name
    then some (lit "name can't end with '/' (add a KEY after the folder)")
    else if has_double_slash name
    then some (lit "name can't have an empty segment ('//')")
    else none

unfoldable pub folder_prefix : Text → Text
folder_prefix row_id = elim (rfind_byte b'/' row_id) [
  | none ↦ []
  | some last_slash ↦ take (suc last_slash) row_id
]

-- One round of printable: a control of two bytes is one character.
unfoldable pub printable : Text → Text
printable [] = []
printable (c ∷ []) = (if is_control c then b'?' else c) ∷ []
printable (c ∷ d ∷ text) =
    let behind = printable text in
    let rest = printable (d ∷ text) in
    if is_c1_at (c ∷ d ∷ text) then b'?' ∷ behind else (if is_control c then b'?' else c) ∷ rest

-- "→" in UTF-8
abbrev pub tab_glyph : Text
tab_glyph = 226 ∷ 134 ∷ 146 ∷ []

unfoldable pub shown_byte : ℕ → Text
shown_byte c =
    if c == 9
    then tab_glyph
    else if (ltb c 32 && not (c == b'\n')) || c == 127
    then b'?' ∷ []
    else c ∷ []

unfoldable pub printable_value : Text → Text
printable_value [] = []
printable_value (c ∷ []) = shown_byte c
printable_value (c ∷ d ∷ text) =
    let behind = printable_value text in
    let rest = printable_value (d ∷ text) in
    if is_c1_at (c ∷ d ∷ text) then b'?' ∷ behind else shown_byte c ++ rest

-- The OSC 52 escape that copies a value; `base64` is sodium_bin2base64 in its original variant.
unfoldable pub osc52_copy_sequence : (Text → Text) → Text → Text
osc52_copy_sequence base64 value = 27 ∷ (lit "]52;c;" ++ (base64 value ++ 7 ∷ []))
