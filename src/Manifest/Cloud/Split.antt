-- ===== src/Manifest/Cloud/Split.antt =====
-- The parts of a text that is split at a separator: the fuel is enough.
use secretov.Prelude.{
  ◌≡◌, ap, ◌∙◌, ℕ, zero, suc, ◌<◌, some, List, [], ◌∷◌, ◌++◌, take, drop, length, arith,
  Option-cases, inl, inr, length-drop, append-nil,
}
use secretov.Prelude.Text.{Text, find_byte}
use secretov.Manifest.Cloud.{split_from, split_on}

-- Each part behind a separator.
behind : ℕ → List Text → Text
behind separator [] = []
behind separator (part ∷ parts) = separator ∷ (part ++ behind separator parts)

take-find_byte :
    (separator : ℕ) (s : Text) {at : ℕ}
    → find_byte separator s ≡ some at
    → take at s ++ (separator ∷ drop (suc at) s) ≡ s
unfolding find_byte
take-find_byte separator [] h = absurd (cc h)
take-find_byte separator (c ∷ s) {at = zero} h = ground (arith, h)
take-find_byte separator (c ∷ s) {at = suc at} h =
    ap (λ t. c ∷ t) (take-find_byte separator s (ground (arith, h)))

length-drop_lt :
    (n : ℕ) (s : Text) (fuel : ℕ)
    → 0 < length s
    → length s < suc fuel
    → length (drop (suc n) s) < fuel
length-drop_lt n s fuel h k = omega (arith, h, k, length-drop (suc n) s)

length-find_byte :
    (separator : ℕ) (s : Text) {at : ℕ} → find_byte separator s ≡ some at → 0 < length s
unfolding find_byte
length-find_byte separator [] e = absurd (cc e)
length-find_byte separator (c ∷ s) e = omega arith

behind-split_from :
    (separator : ℕ) (fuel : ℕ) (s : Text)
    → length s < fuel
    → behind separator (split_from fuel s separator) ≡ separator ∷ s
unfolding split_from behind
behind-split_from separator zero s h = absurd (omega (arith, h))
behind-split_from separator (suc fuel) s h = elim (Option-cases (find_byte separator s)) [
  | inl e ↦ rw (split_from, e) (ap (λ t. separator ∷ t) (append-nil s))
  | inr (at, e) ↦
      rw (split_from, e)
        (ap (λ t. separator ∷ (take at s ++ t))
            (behind-split_from separator fuel (drop (suc at) s)
              (length-drop_lt at s fuel (length-find_byte separator s e) h))
          ∙ ap (λ t. separator ∷ t) (take-find_byte separator s e))
]

-- The parts, each behind a separator, are the text behind one: none is lost.
split_on_lem : (separator : ℕ) (s : Text) → behind separator (split_on s separator) ≡ separator ∷ s
unfolding split_on
split_on_lem separator s = behind-split_from separator (suc (length s)) s (omega arith)
