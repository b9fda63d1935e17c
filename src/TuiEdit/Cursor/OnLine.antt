-- ===== src/TuiEdit/Cursor/OnLine.antt =====
-- Where the line of the cursor starts and ends.
use secretov.Prelude.{
  ℕ, zero, suc, ◌-◌, ◌≤◌, ◌<◌, ◌≡◌, refl, sym, subst, Bool, true, false, ◌⊎◌, inl, inr, [], ◌∷◌,
  drop, length, arith, ◌==◌, Bool-cases, length-drop,
}
use secretov.Prelude.Text.{Text}
use secretov.TuiEdit.Cursor.{clamped, byte_at, back_while, span, not_newline, line_start, line_end}

-- The stretch that a walk back covers: it ends at 0 or behind a byte that fails the test.
pub record IsStretch (test : ℕ → Bool) (text : Text) (start end : ℕ) : Type 0 where
  pub ordered : start ≤ end
  pub inside : (n : ℕ) → start ≤ n → n < end → test (byte_at text n) ≡ true
  pub stops : (start ≡ 0) ⊎ ((0 < start) × (test (byte_at text (start - 1)) ≡ false))

back_while-IsStretch :
    (test : ℕ → Bool) (text : Text) (n : ℕ) → IsStretch test text (back_while test text n) n
unfolding back_while
back_while-IsStretch test text zero = record {
  ordered = omega arith;
  inside = λ n a b. absurd (omega (arith, a, b));
  stops = inl refl;
}
back_while-IsStretch test text (suc n) = elim (Bool-cases (test (byte_at text n))) [
  | inl e ↦
      let h = back_while-IsStretch test text n in
      rw e (record {
        ordered = omega (arith, h.ordered);
        inside = λ m a b. elim (Bool-cases (m == n)) [
          | inl same ↦
              (let q : m ≡ n = ground (arith, same) in
                subst (λ k. test (byte_at text k) ≡ true) (sym q) e)
          | inr other ↦ h.inside m a (ground (arith, b, other))
        ];
        stops = h.stops;
      })
  | inr e ↦ rw e (record {
    ordered = omega arith;
    inside = λ m a b. absurd (omega (arith, a, b));
    stops = inr (omega arith, subst (λ k. test (byte_at text k) ≡ false) (omega arith) e);
  })
]

-- The stretch that a walk forward covers: it ends at the end or at a byte that fails the test.
pub record IsRun (test : ℕ → Bool) (text : Text) (run : ℕ) : Type 0 where
  pub ordered : run ≤ length text
  pub inside : (n : ℕ) → n < run → test (byte_at text n) ≡ true
  pub stops : (run ≡ length text) ⊎ ((run < length text) × (test (byte_at text run) ≡ false))

span-IsRun : (test : ℕ → Bool) (text : Text) → IsRun test text (span test text)
unfolding span
span-IsRun test [] = record {
  ordered = omega arith;
  inside = λ n b. absurd (omega (arith, b));
  stops = inl refl;
}
span-IsRun test (c ∷ text) = elim (Bool-cases (test c)) [
  | inl e ↦
      let h = span-IsRun test text in
      rw e (record {
        ordered = omega (arith, h.ordered);
        inside = inside_suc test c text (span test text) e h.inside;
        stops = elim h.stops [
          | inl s ↦ inl (omega (arith, s))
          | inr (s, f) ↦ inr (omega (arith, s), f)
        ];
      })
  | inr e ↦ rw e (record {
    ordered = omega arith;
    inside = λ n b. absurd (omega (arith, b));
    stops = inr (omega arith, e);
  })
]
  where
    inside_suc :
        (test : ℕ → Bool) (c : ℕ) (text : Text) (run : ℕ)
        → test c ≡ true
        → ((n : ℕ) → n < run → test (byte_at text n) ≡ true)
        → (n : ℕ) → n < suc run
        → test (byte_at (c ∷ text) n) ≡ true
    inside_suc test c text run e h zero b = e
    inside_suc test c text run e h (suc n) b = h n (omega (arith, b))

clamped-le : (text : Text) (cursor : ℕ) → clamped text cursor ≤ length text
unfolding clamped
clamped-le text cursor = omega arith

-- `line_start` and `line_end` give the bounds of the cursor's line: no byte between the start and
-- the cursor, and none between the cursor and the end, is a '\n', and each bound lies at an end of
-- the text or next to a '\n'.
line_start-line_end :
    (text : Text) (cursor : ℕ)
    → IsStretch not_newline text (line_start text cursor) (clamped text cursor)
      × IsRun not_newline
          (drop (clamped text cursor) text)
          (line_end text cursor - clamped text cursor)
      × (clamped text cursor ≤ line_end text cursor)
      × (line_end text cursor ≤ length text)
unfolding line_start line_end
line_start-line_end text cursor =
    let position = clamped text cursor in
    let run = span-IsRun not_newline (drop position text) in
    (
      back_while-IsStretch not_newline text position,
      subst (IsRun not_newline (drop position text)) (omega arith) run,
      omega arith,
      omega (arith, run.ordered, clamped-le text cursor, length-drop position text),
    )
