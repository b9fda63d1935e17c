-- ===== src/Io.antt =====
-- Code that changes the world and may throw: what was done before a throw stays done.
use secretov.Prelude.{ℕ, ◌≡◌, refl, ◌⊎◌, inl, inr, Option, Bool, true, false, List, [], ◌∷◌, ◌++◌}
use secretov.Prelude.Text.{Text}
use secretov.Prelude.Result.{Result, ok, err}

-- The files by path, the number of system calls answered so far, and what stderr holds.
pub record World : Type 0 where
  pub disk : Text → Option Text
  pub calls : ℕ
  pub stderr : List Text

abbrev pub Io {ℓ} : Type ℓ → Type ℓ
Io A = World → Result Text A × World

module _ {ℓ} {A : Type ℓ} where
  abbrev pub pure : A → Io A
  pure a w = (ok a, w)

  abbrev pub throw : Text → Io A
  throw e w = (err e, w)

  abbrev pub lift : Result Text A → Io A
  lift r w = (r, w)

module _ {ℓ κ} {A : Type ℓ} {B : Type κ} where
  abbrev pub resume : Result Text A × World → (A → Io B) → Result Text B × World
  resume (ok a, w) f = f a w
  resume (err e, w) f = (err e, w)

  infixl 5 ◌>>=◌
  abbrev pub ◌>>=◌ : Io A → (A → Io B) → Io B
  ◌>>=◌ m f w = resume (m w) f

module _ {ℓ} {B : Type ℓ} where
  infixl 5 ◌>>◌
  abbrev pub ◌>>◌ : Io (Unit {0}) → Io B → Io B
  m >> k = m >>= λ _. k

-- std::cerr
abbrev pub report : Text → Io (Unit {0})
report line w = (ok tt, record w { stderr = w.stderr ++ line ∷ [] })

abbrev pub is_ok {ℓ} : {E : Type 0} {A : Type ℓ} → Result E A → Bool
is_ok (ok a) = true
is_ok (err e) = false

-- To split on how a call ends, with the whole outcome at hand.
pub outcome-cases {ℓ} :
    {A : Type ℓ} (r : Result Text A × World)
    → ((a : A) × (w : World) × (r ≡ (ok a, w))) ⊎ ((e : Text) × (w : World) × (r ≡ (err e, w)))
outcome-cases (ok a, w) = inl (a, w, refl)
outcome-cases (err e, w) = inr (e, w, refl)
