-- ===== src/TuiEdit/Wrap/Lines.antt =====
-- `wrap_lines` loses nothing but the newlines, and no piece is too wide.
use secretov.Prelude.{
  ℕ, zero, suc, ◌+◌, ◌≤◌, ◌<◌, ◌≡◌, refl, ap, sym, ◌∙◌, max, List, [], ◌∷◌, ◌++◌, take, drop,
  length, arith, Bool-cases, Option-cases, inl, inr, true, take-append-drop, length-take,
  length-append, length-drop,
}
use secretov.Prelude.Bytes.{find_byte-splits}
use secretov.Prelude.Text.{Text, find_byte, is_empty}
use secretov.TuiEdit.Columns.{prefix_from, prefix_bytes, text_columns}
use secretov.TuiEdit.Columns.Bounds.{prefix_bytes-columns}
use secretov.TuiEdit.Wrap.{cut_line, wrap_from, wrap_lines}
use secretov.TuiEdit.Wrap.Kept.{without, flat, flat-append, without-split, without-none}

-- A piece of a line that is not empty has a byte.
pub prefix_bytes-pos :
    (c : ℕ) (text : Text) (width : ℕ) → 0 < width → 0 < prefix_bytes (c ∷ text) width
unfolding prefix_bytes prefix_from
prefix_bytes-pos c text width h = ground arith

abbrev pub AreNarrow : ℕ → List Text → Type 0
AreNarrow width [] = Unit
AreNarrow width (piece ∷ pieces) = (text_columns piece ≤ width) × AreNarrow width pieces

pub AreNarrow-append :
    (width : ℕ) (a b : List Text) → AreNarrow width a → AreNarrow width b → AreNarrow width (a ++ b)
AreNarrow-append width [] b h k = k
AreNarrow-append width (piece ∷ a) b h k = (h.0, AreNarrow-append width a b h.1 k)

pub empty-nil : (s : Text) → is_empty s ≡ true → s ≡ []
unfolding is_empty
empty-nil [] h = refl
empty-nil (c ∷ s) h = cc

flat_nil : (width fuel : ℕ) → flat (cut_line (suc fuel) width []) ≡ []
unfolding cut_line flat is_empty prefix_bytes prefix_from
flat_nil width fuel = refl

module _ (width : ℕ) (wide : 0 < width) where
  cut_line-AreNarrow : (fuel : ℕ) (line : Text) → AreNarrow width (cut_line fuel width line)
  unfolding cut_line
  cut_line-AreNarrow zero line = tt
  cut_line-AreNarrow (suc fuel) line = ground (
    arith,
    prefix_bytes-columns line width,
    cut_line-AreNarrow fuel (drop (prefix_bytes line width) line),
  )

  flat-cut_line :
      (fuel : ℕ) (line : Text) → length line < fuel → flat (cut_line fuel width line) ≡ line
  unfolding cut_line flat is_empty
  flat-cut_line zero line h = absurd (omega arith)
  flat-cut_line (suc fuel) [] h = flat_nil width fuel
  flat-cut_line (suc fuel) (c ∷ line) h =
      let piece = prefix_bytes (c ∷ line) width in
      let rest = drop piece (c ∷ line) in
      let whole = take-append-drop piece (c ∷ line) in
      let shorter : length rest < fuel =
        omega (arith, prefix_bytes-pos c line width wide, length-drop piece (c ∷ line)) in
      elim (Bool-cases (is_empty rest)) [
        | inl e ↦ rw e (ap (λ t. take piece (c ∷ line) ++ t) (sym (empty-nil rest e)) ∙ whole)
        | inr e ↦
            rw e (ap (λ t. take piece (c ∷ line) ++ t) (flat-cut_line fuel rest shorter) ∙ whole)
      ]

  wrap_from-AreNarrow : (fuel : ℕ) (text : Text) → AreNarrow width (wrap_from fuel width text)
  unfolding wrap_from
  wrap_from-AreNarrow zero text = tt
  wrap_from-AreNarrow (suc fuel) text = elim (Option-cases (find_byte b'\n' text)) [
    | inl e ↦ rw (e, wrap_from) (cut_line-AreNarrow _ text)
    | inr (i, e) ↦
        rw (e, wrap_from)
          (AreNarrow-append width _ _ (cut_line-AreNarrow _ (take i text))
            (wrap_from-AreNarrow fuel (drop (suc i) text)))
  ]

  flat-wrap_from :
      (fuel : ℕ) (text : Text)
      → length text < fuel
      → flat (wrap_from fuel width text) ≡ without b'\n' text
  unfolding wrap_from
  flat-wrap_from zero text h = absurd (omega arith)
  flat-wrap_from (suc fuel) text h = elim (Option-cases (find_byte b'\n' text)) [
    | inl e ↦
        rw (e, wrap_from) (flat-cut_line _ text (omega arith) ∙ sym (without-none b'\n' text e))
    | inr (i, e) ↦
        let (splits, first) = find_byte-splits b'\n' text i e in
        rw (e, wrap_from)
          (flat-append (cut_line (i + 1) width (take i text)) _
            ∙ ap (λ t. t ++ flat (wrap_from fuel width (drop (suc i) text)))
                (flat-cut_line (i + 1) (take i text) (omega (arith, length-take i text))
                  ∙ sym (without-none b'\n' (take i text) first))
            ∙ ap (λ t. without b'\n' (take i text) ++ t)
                (flat-wrap_from fuel (drop (suc i) text) (
                  omega (
                    arith,
                    ap length splits,
                    length-append (take i text) (b'\n' ∷ drop (suc i) text),
                  )))
            ∙ sym (without-split b'\n' text i e))
  ]

-- `wrap_lines` cuts a text into pieces of at most the width (at least 1) columns, which put
-- together are the text without its newlines.
pub wrap_lines_lem :
    (text : Text) (width : ℕ)
    → AreNarrow (max width 1) (wrap_lines text width)
      × (flat (wrap_lines text width) ≡ without b'\n' text)
unfolding wrap_lines
wrap_lines_lem text width = (
  wrap_from-AreNarrow (max width 1) (omega arith) (length text + 1) text,
  flat-wrap_from (max width 1) (omega arith) (length text + 1) text (omega arith),
)
