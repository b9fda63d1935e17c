-- ===== src/Prelude/Bytes.antt =====
-- Where a byte stands in a text.
use secretov.Prelude.{
  ℕ, zero, suc, ◌≤◌, ◌≡◌, refl, none, some, true, [], ◌∷◌, ◌++◌, arith, take, drop, length,
}
use secretov.Prelude.Text.{Text, find_byte, starts_with}

found_later :
    (b c : ℕ) (s : Text) (i : ℕ) → find_byte b (c ∷ s) ≡ some (suc i) → find_byte b s ≡ some i
unfolding find_byte
found_later b c s i h = ground arith

pub unfound_later : (b c : ℕ) (s : Text) → find_byte b (c ∷ s) ≡ none → find_byte b s ≡ none
unfolding find_byte
unfound_later b c s h = ground arith

-- A byte that is found splits the text.
pub find_byte-splits :
    (b : ℕ) (s : Text) (i : ℕ)
    → find_byte b s ≡ some i
    → (s ≡ take i s ++ b ∷ drop (suc i) s) × (find_byte b (take i s) ≡ none)
unfolding find_byte
find_byte-splits b [] i h = cc
find_byte-splits b (c ∷ s) zero h = ground arith
find_byte-splits b (c ∷ s) (suc i) h =
    ground (arith, find_byte-splits b s i (found_later b c s i h))

-- The first of the lines is the only one.
pub split_unique :
    (b : ℕ) (s s' t t' : Text)
    → find_byte b s ≡ none
    → find_byte b s' ≡ none
    → s ++ b ∷ t ≡ s' ++ b ∷ t'
    → (s ≡ s') × (t ≡ t')
unfolding find_byte
split_unique b [] [] t t' h h' e = ground arith
split_unique b [] (c ∷ s') t t' h h' e = ground arith
split_unique b (c ∷ s) [] t t' h h' e = ground arith
split_unique b (c ∷ s) (d ∷ s') t t' h h' e = ground (
  arith,
  split_unique b s s' t t' (unfound_later b c s h) (unfound_later b d s' h') (ground arith),
)

-- A text without the byte ends before the first one.
pub unfound-short :
    (b : ℕ) (s t line rest : Text)
    → find_byte b s ≡ none
    → s ++ t ≡ line ++ b ∷ rest
    → length s ≤ length line
unfolding find_byte
unfound-short b [] t line rest h e = omega arith
unfound-short b (c ∷ s) t [] rest h e = ground arith
unfound-short b (c ∷ s) t (d ∷ line) rest h e =
    ground (arith, unfound-short b s t line rest (unfound_later b c s h) (ground arith))

-- A prefix is what a text begins with.
pub starts_with-splits : (q s : Text) → starts_with q s ≡ true → (t : Text) × (s ≡ q ++ t)
unfolding starts_with
starts_with-splits [] s h = (s, refl)
starts_with-splits (b ∷ q) [] h = absurd (cc h)
starts_with-splits (b ∷ q) (c ∷ s) h =
    let (t, e) = starts_with-splits q s (ground arith) in (t, ground (arith, e))

pub starts_with-append : (q t : Text) → starts_with q (q ++ t) ≡ true
unfolding starts_with
starts_with-append [] t = refl
starts_with-append (b ∷ q) t = ground (arith, starts_with-append q t)
