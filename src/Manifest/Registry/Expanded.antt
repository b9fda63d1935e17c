-- ===== src/Manifest/Registry/Expanded.antt =====
-- What an expanded path is made of.
use secretov.Prelude.{
  and_both, ℕ, ◌≡◌, sym, subst, ◌∙◌, ◌⊎◌, inl, inr, some, true, false, ◌&&◌, ◌==◌, [], ◌∷◌, ◌++◌,
  arith, Bool-cases, append_assoc, ==_iff,
}
use secretov.Prelude.Result.{ok, bind-eq-ok, ok_inj}
use secretov.Prelude.Text.{Text, lit, is_empty, starts_with, text_eq, text_eq→eq}
use secretov.Manifest.Registry.{
  Environment, expanded_variable, Scan, outside, opened, in_name, expand_from, expand_vars,
}

-- A path and what it stands for: ${HOME} and ${USER} for the values of the variables, which are not
-- empty, and every other byte for itself.
pub data Expands (env : Environment) : Text → Text → Type 0 where
  done : Expands env [] []
  plain :
      {c : ℕ} {rest out : Text}
      → starts_with (lit "${") (c ∷ rest) ≡ false
      → Expands env rest out
      → Expands env (c ∷ rest) (c ∷ out)
  variable :
      {name v rest out : Text}
      → (name ≡ lit "HOME") ⊎ (name ≡ lit "USER")
      → env name ≡ some v
      → is_empty v ≡ false
      → Expands env rest out
      → Expands env (b'$' ∷ b'{' ∷ (name ++ b'}' ∷ rest)) (v ++ out)

expanded_variable-ok :
    (env : Environment) (s name v : Text)
    → expanded_variable env s name ≡ ok v
    → ((name ≡ lit "HOME") ⊎ (name ≡ lit "USER")) × (env name ≡ some v) × (is_empty v ≡ false)
unfolding expanded_variable
expanded_variable-ok env s name v h = elim (Bool-cases (text_eq name (lit "HOME"))) [
  | inl home ↦ (inl (text_eq→eq _ _ home), ground (arith, h, home), ground (arith, h, home))
  | inr other ↦ elim (Bool-cases (text_eq name (lit "USER"))) [
    | inl user ↦
        (inr (text_eq→eq _ _ user), ground (arith, h, other, user), ground (arith, h, other, user))
    | inr neither ↦ cc (rw (expanded_variable, other, neither) at h)
  ]
]

open_at :
    (c : ℕ) (rest : Text)
    → ((c == b'$') && starts_with (lit "{") rest) ≡ starts_with (lit "${") (c ∷ rest)
unfolding starts_with lit
open_at c [] = ground arith
open_at c (d ∷ rest) = ground arith

abbrev StandsFor : Environment → Scan → Text → Text → Type 0
StandsFor env outside rest out = Expands env rest out
StandsFor env opened rest out = starts_with (lit "{") rest ≡ true → Expands env (b'$' ∷ rest) out
StandsFor env (in_name name) rest out = Expands env (b'$' ∷ b'{' ∷ (name ++ rest)) out

open_brace : (c : ℕ) (rest : Text) → starts_with (lit "{") (c ∷ rest) ≡ true → c ≡ b'{'
unfolding starts_with lit
open_brace c rest h = ground (arith, h)

expand_from-StandsFor :
    (env : Environment) (s : Text) (scan : Scan) (rest out : Text)
    → expand_from env s scan rest ≡ ok out
    → StandsFor env scan rest out
unfolding expand_from starts_with lit
expand_from-StandsFor env s outside [] out h = subst (Expands env []) (ok_inj h) done
expand_from-StandsFor env s opened [] out h = λ braced. absurd (cc braced)
expand_from-StandsFor env s (in_name name) [] out h = cc
expand_from-StandsFor env s outside (c ∷ rest) out h =
    elim (Bool-cases ((c == b'$') && starts_with (lit "{") rest)) [
      | inl brace ↦
          let (dollar, braced) = and_both (c == b'$') (starts_with (lit "{") rest) brace in
          subst (λ d. Expands env (d ∷ rest) out) (sym ((==_iff c b'$').0 dollar))
            (expand_from-StandsFor env s opened rest out (rw (expand_from, brace) at h) braced)
      | inr other ↦
          let (later, r, same) =
            bind-eq-ok (expand_from env s outside rest) _ (rw (expand_from, other) at h) in
          subst (Expands env (c ∷ rest)) (ok_inj same) (
            plain (sym (open_at c rest) ∙ other) (expand_from-StandsFor env s outside rest later r))
    ]
expand_from-StandsFor env s opened (c ∷ rest) out h = λ braced.
    subst (λ d. Expands env (b'$' ∷ d ∷ rest) out) (sym (open_brace c rest braced))
      (expand_from-StandsFor env s (in_name []) rest out h)
expand_from-StandsFor env s (in_name name) (c ∷ rest) out h = elim (Bool-cases (c == b'}')) [
  | inl close ↦
      let (v, value, h₁) =
        bind-eq-ok (expanded_variable env s name) _ (rw (expand_from, close) at h) in
      let (later, r, same) = bind-eq-ok (expand_from env s outside rest) _ h₁ in
      let (known, set, full) = expanded_variable-ok env s name v value in
      subst (λ d. Expands env (b'$' ∷ b'{' ∷ (name ++ d ∷ rest)) out)
        (sym ((==_iff c b'}').0 close))
        (subst (Expands env (b'$' ∷ b'{' ∷ (name ++ b'}' ∷ rest))) (ok_inj same)
          (variable known set full (expand_from-StandsFor env s outside rest later r)))
  | inr other ↦
      subst (λ t. Expands env (b'$' ∷ b'{' ∷ t) out) (append_assoc name (c ∷ []) rest)
        (expand_from-StandsFor env s (in_name (name ++ (c ∷ []))) rest out
          (rw (expand_from, other) at h))
]

-- A path that is expanded is made of ${HOME} and ${USER}, which are set and not empty, and of bytes
-- that begin no "${"; and the result has the values of the two in their places and those bytes as
-- they are.
pub expand_vars-Expands :
    (env : Environment) (s out : Text) → expand_vars env s ≡ ok out → Expands env s out
unfolding expand_vars
expand_vars-Expands env s out h = expand_from-StandsFor env s outside s out h
