-- ===== src/TuiEdit/Wrap/Kept.antt =====
-- What is left of a text without one byte, and of pieces put together.
use secretov.Prelude.{
  ℕ, suc, ◌≡◌, refl, ap, sym, ◌∙◌, List, [], ◌∷◌, ◌++◌, take, drop, arith, ◌==◌, if◌then◌else◌,
  append_assoc, append-nil, some, none,
}
use secretov.Prelude.Bytes.{find_byte-splits}
use secretov.Prelude.Text.{Text, find_byte}

-- The text without the bytes `b`.
unfoldable pub without : ℕ → Text → Text
without b [] = []
without b (c ∷ text) = if c == b then without b text else c ∷ without b text

unfoldable pub flat : List Text → Text
flat [] = []
flat (piece ∷ pieces) = piece ++ flat pieces

pub without-append : (b : ℕ) (s t : Text) → without b (s ++ t) ≡ without b s ++ without b t
unfolding without
without-append b [] t = refl
without-append b (c ∷ s) t = ground (arith, without-append b s t)

pub flat-append : (s t : List Text) → flat (s ++ t) ≡ flat s ++ flat t
unfolding flat
flat-append [] t = refl
flat-append (piece ∷ s) t = rw (flat-append s t) (sym (append_assoc piece (flat s) (flat t)))

-- A byte that is left out separates its text.
pub without-split :
    (b : ℕ) (s : Text) (i : ℕ)
    → find_byte b s ≡ some i
    → without b s ≡ without b (take i s) ++ without b (drop (suc i) s)
unfolding without
without-split b s i h =
    let (splits, first) = find_byte-splits b s i h in
    ap (without b) splits
    ∙ without-append b (take i s) (b ∷ drop (suc i) s)
    ∙ ap (λ t. without b (take i s) ++ t) (ground arith)

pub without-none : (b : ℕ) (s : Text) → find_byte b s ≡ none → without b s ≡ s
unfolding find_byte without
without-none b [] h = refl
without-none b (c ∷ s) h = ground (arith, h, without-none b s)

pub without-snoc :
    (b : ℕ) (pieces : List Text) (piece : Text)
    → without b (flat (pieces ++ piece ∷ [])) ≡ without b (flat pieces) ++ without b piece
unfolding flat
without-snoc b pieces piece =
    ap (without b) (flat-append pieces (piece ∷ []))
    ∙ without-append b (flat pieces) (piece ++ [])
    ∙ ap (λ t. without b (flat pieces) ++ without b t) (append-nil piece)
