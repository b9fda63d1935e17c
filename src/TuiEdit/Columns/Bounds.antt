-- ===== src/TuiEdit/Columns/Bounds.antt =====
-- How wide the cut texts are.
use secretov.Prelude.{
  ℕ, ◌+◌, ◌-◌, ◌/◌, ◌≤◌, ◌≡◌, refl, ap, min, [], ◌∷◌, ◌++◌, take, drop, arith, take-append-drop,
}
use secretov.Prelude.Text.{Text}
use secretov.TuiEdit.Columns.{
  starts_code_point, prefix_from, prefix_bytes, text_columns, dots, ellipsize, ellipsize_middle,
}

pub text_columns-append : (a b : Text) → text_columns (a ++ b) ≡ text_columns a + text_columns b
unfolding text_columns
text_columns-append [] b = omega arith
text_columns-append (c ∷ a) b = omega (arith, text_columns-append a b)

prefix_from-columns :
    (width columns : ℕ) (text : Text)
    → columns ≤ width
    → text_columns (take (prefix_from width columns text) text)
      ≡ min (width - columns) (text_columns text)
unfolding prefix_from text_columns
prefix_from-columns width columns [] h = omega arith
prefix_from-columns width columns (c ∷ text) h =
    ground (
      arith,
      prefix_from-columns width columns text h,
      prefix_from-columns width (columns + 1) text,
    )

-- A prefix takes the width, or is the whole text.
pub prefix_bytes-columns :
    (text : Text) (width : ℕ)
    → text_columns (take (prefix_bytes text width) text) ≡ min width (text_columns text)
unfolding prefix_bytes
prefix_bytes-columns text width = omega (arith, prefix_from-columns width 0 text)

rest-columns :
    (text : Text) (width : ℕ)
    → text_columns (drop (prefix_bytes text width) text) ≡ text_columns text - width
rest-columns text width = omega (
  arith,
  prefix_bytes-columns text width,
  text_columns-append (take (prefix_bytes text width) text) (drop (prefix_bytes text width) text),
  ap text_columns (take-append-drop (prefix_bytes text width) text),
)

dots-columns : text_columns dots ≡ 1
unfolding text_columns starts_code_point
dots-columns = refl

pub empty-columns : text_columns [] ≡ 0
unfolding text_columns
empty-columns = refl

-- `ellipsize` and `ellipsize_middle` fill exactly the width that there is: the result has the
-- columns of the text or, where those are more than the width, the width; and a text that fits is
-- not changed.
ellipsize-columns :
    (text : Text) (width : ℕ)
    → (text_columns (ellipsize text width) ≡ min (text_columns text) width)
      × (text_columns (ellipsize_middle text width) ≡ min (text_columns text) width)
      × (text_columns text ≤ width
          → (ellipsize text width ≡ text) × (ellipsize_middle text width ≡ text))
unfolding ellipsize ellipsize_middle
ellipsize-columns text width =
    let columns = text_columns text in
    let head = (width - 1) / 2 in
    let tail = width - 1 - head in
    ground (
      arith,
      dots-columns,
      empty-columns,
      text_columns-append (take (prefix_bytes text (width - 1)) text) dots,
      prefix_bytes-columns text (width - 1),
      text_columns-append (take (prefix_bytes text head) text)
          (dots ++ drop (prefix_bytes text (columns - tail)) text),
      text_columns-append dots (drop (prefix_bytes text (columns - tail)) text),
      prefix_bytes-columns text head,
      rest-columns text (columns - tail),
    )
