-- ===== src/TuiEdit/Wrap/Words.antt =====
-- `word_wrap` loses nothing but spaces, and no line is too wide.
use secretov.Prelude.{
  ℕ, zero, suc, ◌+◌, ◌*◌, ◌≤◌, ◌<◌, ◌≡◌, refl, not, ◌||◌, Bool, is_nil, ap, sym, subst, ◌∙◌, max,
  List, [], ◌∷◌, ◌++◌, take, drop, length, arith, leb, if◌then◌else◌, Bool-cases, Option-cases, inl,
  inr, true, false, take-append-drop, append-nil, append_assoc, length-drop, length-append,
  take_all, drop_all,
}
use secretov.Prelude.Text.{Text, find_byte, is_empty}
use secretov.TuiEdit.Columns.{prefix_bytes, text_columns, starts_code_point}
use secretov.TuiEdit.Columns.Bounds.{prefix_bytes-columns, text_columns-append, empty-columns}
use secretov.TuiEdit.Wrap.{Wrapped, add_word, word_end, add_words, last_line, word_wrap}
use secretov.TuiEdit.Wrap.Kept.{without, flat, without-append, without-snoc, without-split}
use secretov.TuiEdit.Wrap.Lines.{prefix_bytes-pos, AreNarrow, AreNarrow-append}

-- What the lines hold besides spaces.
abbrev kept : Wrapped → Text
kept s = without b' ' (flat s.lines) ++ without b' ' s.line

abbrev IsNarrow : ℕ → Wrapped → Type 0
IsNarrow width s = AreNarrow width s.lines × (text_columns s.line ≤ width)

-- A step keeps the width, and adds the word to what is held.
record IsStep (width : ℕ) (s : Wrapped) (word : Text) (r : Wrapped) : Type 0 where
  narrow : IsNarrow width r
  same : kept r ≡ kept s ++ without b' ' word

space-columns : text_columns (b' ' ∷ []) ≡ 1
unfolding text_columns starts_code_point
space-columns = refl

spaceless : without b' ' (b' ' ∷ []) ≡ []
unfolding without
spaceless = refl

little : (n : ℕ) (b : Bool) → 2 * n + (if b then 0 else 1) < 2 * n + 2
little n b = ground arith

word_end-splits :
    (text : Text)
    → without b' ' text
      ≡ without b' ' (take (word_end text) text) ++ without b' ' (drop (suc (word_end text)) text)
unfolding without
word_end-splits text = elim (Option-cases (find_byte b' ' text)) [
  | inr (i, e) ↦ rw (e, word_end) (without-split b' ' text i e)
  | inl e ↦
      rw (e, word_end)
        (rw
          (
            take_all (length text) text (omega arith),
            drop_all (suc (length text)) text (omega arith),
          )
          (sym (append-nil (without b' ' text))))
]

nothing : (s : Text) → is_empty s ≡ true → without b' ' s ≡ []
unfolding without is_empty
nothing [] h = refl
nothing (c ∷ s) h = cc

module _ (width : ℕ) (wide : 0 < width) where
  -- The word goes behind the line.
  joined-IsStep :
      (s : Wrapped) (word : Text)
      → IsNarrow width s
      → text_columns s.line + (if is_empty s.line then 0 else 1) + text_columns word ≤ width
      → IsStep width s word
          (record s { line = (if is_empty s.line then [] else s.line ++ b' ' ∷ []) ++ word })
  joined-IsStep s word h n = elim (Bool-cases (is_empty s.line)) [
    | inl e ↦
        rw e
          (record { narrow = (h.0, omega arith); same = simp (nothing s.line e, append-nil) refl })
    | inr e ↦ rw e (record {
      narrow = (
        h.0,
        omega (
          arith,
          rw e at n,
          space-columns,
          text_columns-append (s.line ++ b' ' ∷ []) word,
          text_columns-append s.line (b' ' ∷ []),
        ),
      );
      same = simp (without-append, spaceless, append_assoc) refl;
    })
  ]

  -- A piece of the word becomes a line of its own.
  cut-IsStep :
      (s : Wrapped) (piece rest : Text) (r : Wrapped)
      → is_empty s.line ≡ true
      → IsStep width (record s { lines = s.lines ++ piece ∷ [] }) rest r
      → IsStep width s (piece ++ rest) r
  cut-IsStep s piece rest r e h = record {
    narrow = h.narrow;
    same =
        h.same
        ∙ simp (without-snoc, without-append, nothing s.line e, append_assoc, append-nil) refl;
  }

  flushed-IsStep :
      (s : Wrapped) (word : Text) (r : Wrapped)
      → IsStep width (record { lines = s.lines ++ s.line ∷ []; line = [] }) word r
      → IsStep width s word r
  unfolding without
  flushed-IsStep s word r h = record {
    narrow = h.narrow;
    same =
        h.same
        ∙ ap (λ t. t ++ without b' ' word)
            (append-nil (without b' ' (flat (s.lines ++ s.line ∷ [])))
              ∙ without-snoc b' ' s.lines s.line);
  }

  add_word-IsStep :
      (fuel : ℕ) (s : Wrapped) (word : Text)
      → 2 * length word + (if is_empty s.line then 0 else 1) < fuel
      → IsNarrow width s
      → IsStep width s word (add_word fuel width s word)
  unfolding add_word without is_empty
  add_word-IsStep zero s word f h = absurd (omega arith)
  add_word-IsStep (suc fuel) s [] f h = record { narrow = h; same = sym (append-nil (kept s)) }
  add_word-IsStep (suc fuel) s (c ∷ word) f h =
      let needed =
        text_columns s.line + (if is_empty s.line then 0 else 1) + text_columns (c ∷ word) in
      elim (Bool-cases (leb needed width)) [
        | inl fits ↦ rw (fits, add_word) (joined-IsStep s (c ∷ word) h (ground arith))
        | inr over ↦ elim (Bool-cases (is_empty s.line)) [
          | inl e ↦
              let piece = prefix_bytes (c ∷ word) width in
              let shorter : 2 * length (drop piece (c ∷ word)) < fuel = omega (
                arith,
                rw e at f,
                prefix_bytes-pos c word width wide,
                length-drop piece (c ∷ word),
              ) in
              rw (over, e, add_word)
                (subst
                  (λ w. IsStep width s w (
                    add_word fuel width (record s { lines = s.lines ++ take piece (c ∷ word) ∷ [] })
                      (drop piece (c ∷ word))))
                  (take-append-drop piece (c ∷ word))
                  (cut-IsStep s (take piece (c ∷ word)) (drop piece (c ∷ word)) _ e (
                    add_word-IsStep fuel
                      (record s { lines = s.lines ++ take piece (c ∷ word) ∷ [] })
                      (drop piece (c ∷ word)) (rw e (omega (arith, shorter)))
                      (
                        AreNarrow-append width s.lines _ h.0
                            (omega (arith, prefix_bytes-columns (c ∷ word) width), tt),
                        h.1,
                      ))))
          | inr e ↦
              rw (over, e, add_word)
                (flushed-IsStep s (c ∷ word) _ (
                  add_word-IsStep fuel (record { lines = s.lines ++ s.line ∷ []; line = [] })
                    (c ∷ word) (omega (arith, rw e at f))
                    (AreNarrow-append width s.lines _ h.0 (h.1, tt), omega (arith, empty-columns))))
        ]
      ]

  -- The spaces between the words are all that is lost.
  add_words-IsStep :
      (fuel : ℕ) (s : Wrapped) (text : Text)
      → length text < fuel
      → IsNarrow width s
      → IsStep width s text (add_words fuel width s text)
  unfolding add_words without
  add_words-IsStep zero s text f h = absurd (omega arith)
  add_words-IsStep (suc fuel) s [] f h = record { narrow = h; same = sym (append-nil (kept s)) }
  add_words-IsStep (suc fuel) s (c ∷ text) f h =
      let end = word_end (c ∷ text) in
      let word = take end (c ∷ text) in
      let s' = add_word (2 * length word + 2) width s word in
      let first = add_word-IsStep (2 * length word + 2) s word (little _ (is_empty s.line)) h in
      let rest =
        add_words-IsStep fuel s' (drop (suc end) (c ∷ text))
          (omega (arith, length-drop (suc end) (c ∷ text))) first.narrow in
      record {
        narrow = rest.narrow;
        same =
            rest.same
            ∙ ap (λ t. t ++ without b' ' (drop (suc end) (c ∷ text))) first.same
            ∙ append_assoc (kept s) _ _
            ∙ ap (λ t. kept s ++ t) (sym (word_end-splits (c ∷ text)));
      }

  last_line-AreNarrow : (s : Wrapped) → IsNarrow width s → AreNarrow width (last_line s)
  unfolding last_line
  last_line-AreNarrow s h = elim (Bool-cases (not (is_empty s.line) || is_nil s.lines)) [
    | inl e ↦ rw (e, last_line) (AreNarrow-append width s.lines _ h.0 (h.1, tt))
    | inr e ↦ rw (e, last_line) h.0
  ]

last_line-kept : (s : Wrapped) → without b' ' (flat (last_line s)) ≡ kept s
unfolding last_line
last_line-kept s = elim (Bool-cases (not (is_empty s.line) || is_nil s.lines)) [
  | inl e ↦ rw (e, last_line) (without-snoc b' ' s.lines s.line)
  | inr e ↦ rw (e, last_line) (simp (nothing s.line (ground arith), append-nil) refl)
]

length-pos {ℓ} : {A : Type ℓ} (l : List A) → is_nil l ≡ false → 0 < length l
length-pos [] h = cc
length-pos (a ∷ l) h = omega arith

last_line-pos : (s : Wrapped) → 0 < length (last_line s)
unfolding last_line
last_line-pos s = ground (arith, length-append s.lines (s.line ∷ []), length-pos s.lines)

-- `word_wrap` makes lines of at most the width (at least 1) columns, at least one of them, which
-- together hold the bytes of the text that are not spaces, in order.
pub word_wrap_lem :
    (text : Text) (width : ℕ)
    → AreNarrow (max width 1) (word_wrap text width)
      × (0 < length (word_wrap text width))
      × (without b' ' (flat (word_wrap text width)) ≡ without b' ' text)
unfolding word_wrap without flat
word_wrap_lem text width =
    let s =
      add_words-IsStep (max width 1) (omega arith) (length text + 1)
        (record { lines = []; line = [] }) text (omega arith) (tt, omega (arith, empty-columns)) in
    (
      last_line-AreNarrow (max width 1) (omega arith) _ s.narrow,
      last_line-pos _,
      last_line-kept _ ∙ s.same,
    )
