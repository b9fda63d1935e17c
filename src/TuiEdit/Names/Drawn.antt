-- ===== src/TuiEdit/Names/Drawn.antt =====
-- What is drawn holds no control character, and takes the columns that were counted.
use secretov.Prelude.{
  ℕ, ◌+◌, ◌≡◌, refl, ap, Bool, true, false, ◌&&◌, [], ◌∷◌, arith, Bool-cases, inl, inr, ◌==◌,
  if◌then◌else◌,
}
use secretov.Prelude.Text.{Text}
use secretov.TuiEdit.Columns.{text_columns, starts_code_point}
use secretov.TuiEdit.Names.{is_c1_tail, is_c1_at, is_control, has_control_char, printable}

-- The first byte that is drawn.
abbrev first_byte : Text → ℕ
first_byte [] = 0
first_byte (c ∷ text) = c

-- A byte that is no control and whose next byte is no tail of a two-byte control draws as itself.
printable-first :
    (d : ℕ) (text : Text)
    → is_c1_tail d ≡ false
    → is_c1_tail (first_byte (printable (d ∷ text))) ≡ false
unfolding printable is_c1_tail is_c1_at is_control
printable-first d [] h = ground arith
printable-first d (e ∷ text) h = ground arith

is_c1_at_first :
    (c : ℕ) (rest : Text) → is_c1_at (c ∷ rest) ≡ (c == 194 && is_c1_tail (first_byte rest))
unfolding is_c1_at is_c1_tail
is_c1_at_first c [] = ground arith
is_c1_at_first c (d ∷ rest) = refl

drawn-clean :
    (c : ℕ) (rest : Text)
    → (c == 194 && is_c1_tail (first_byte rest)) ≡ false
    → has_control_char rest ≡ false
    → has_control_char ((if is_control c then b'?' else c) ∷ rest) ≡ false
unfolding has_control_char is_control
drawn-clean c rest h k = ground (arith, h, k, is_c1_at_first c rest, is_c1_at_first b'?' rest)

no_tail : is_c1_tail 0 ≡ false
unfolding is_c1_tail
no_tail = refl

question_clean :
    (rest : Text) → has_control_char rest ≡ false → has_control_char (b'?' ∷ rest) ≡ false
unfolding has_control_char is_control
question_clean rest h = ground (arith, h, is_c1_at_first b'?' rest)

tail_first :
    (c d : ℕ) (text : Text)
    → is_c1_at (c ∷ d ∷ text) ≡ false
    → (c == 194 && is_c1_tail (first_byte (printable (d ∷ text)))) ≡ false
unfolding is_c1_at
tail_first c d text h = ground (arith, h, printable-first d text)

clean : (text : Text) → has_control_char (printable text) ≡ false
unfolding printable has_control_char
clean [] = refl
clean (c ∷ []) = drawn-clean c [] (ground (arith, no_tail)) refl
clean (c ∷ d ∷ text) = elim (Bool-cases (is_c1_at (c ∷ d ∷ text))) [
  | inl e ↦ rw e (ground (arith, clean text, question_clean (printable text)))
  | inr e ↦ rw e (drawn-clean c (printable (d ∷ text)) (tail_first c d text e) (clean (d ∷ text)))
]

one-column : (c : ℕ) → is_control c ≡ true → starts_code_point c ≡ true
unfolding is_control starts_code_point
one-column c h = ground arith

no-column : (d : ℕ) → is_c1_tail d ≡ true → starts_code_point d ≡ false
unfolding is_c1_tail starts_code_point
no-column d h = ground arith

question : (starts_code_point b'?' ≡ true) × (starts_code_point 194 ≡ true)
unfolding starts_code_point
question = (refl, refl)

c1-columns :
    (c d : ℕ) (text : Text)
    → is_c1_at (c ∷ d ∷ text) ≡ true
    → text_columns (c ∷ d ∷ text) ≡ 1 + text_columns text
unfolding is_c1_at text_columns
c1-columns c d text h =
    let same : c ≡ 194 = ground (arith, h) in
    ground (arith, h, same, question, ap starts_code_point same, no-column d)

drawn-columns :
    (c : ℕ) (rest : Text)
    → text_columns ((if is_control c then b'?' else c) ∷ rest) ≡ text_columns (c ∷ rest)
unfolding text_columns
drawn-columns c rest = ground (arith, question, one-column c)

columns : (text : Text) → text_columns (printable text) ≡ text_columns text
unfolding printable text_columns
columns [] = refl
columns (c ∷ []) = drawn-columns c []
columns (c ∷ d ∷ text) = elim (Bool-cases (is_c1_at (c ∷ d ∷ text))) [
  | inl e ↦ rw e (
      omega (
        arith,
        c1-columns c d text e,
        columns text,
        ap (λ (b : Bool). (if b then 1 else 0) + text_columns (printable text)) question.0,
      ))
  | inr e ↦ rw e (omega (arith, drawn-columns c (printable (d ∷ text)), columns (d ∷ text)))
]

-- What `printable` returns holds no control character and takes the columns of the text, so that
-- widths that were counted on the one hold for the other.
pub printable_lem :
    (text : Text)
    → (has_control_char (printable text) ≡ false)
      × (text_columns (printable text) ≡ text_columns text)
printable_lem text = (clean text, columns text)
