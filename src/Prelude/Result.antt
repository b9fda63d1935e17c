-- ===== src/Prelude/Result.antt =====
-- A call that may throw: `err` carries what the exception carries.
use mathlib.Core.Path.{◌≡◌, refl, subst}
use mathlib.Core.Logic.{◌⊎◌, inl, inr}
use mathlib.Core.Bool.{Bool, true, false}

pub data Result {ℓ} (E : Type 0) (A : Type ℓ) : Type ℓ where
  ok : A → Result E A
  err : E → Result E A

infixl 5 ◌>>=◌ ◌>>◌
abbrev pub ◌>>=◌ {ℓ κ} :
    {E : Type 0} {A : Type ℓ} {B : Type κ} → Result E A → (A → Result E B) → Result E B
ok a >>= f = f a
err e >>= f = err e

abbrev pub ◌>>◌ {ℓ} : {E : Type 0} {B : Type ℓ} → Result E (Unit {0}) → Result E B → Result E B
m >> k = m >>= λ _. k

-- if (bad) throw e;
abbrev pub throw_if : {E : Type 0} → Bool → E → Result E (Unit {0})
throw_if true e = err e
throw_if false e = ok tt

pub throw_if-ok : {E : Type 0} (b : Bool) (what : E) → throw_if b what ≡ ok tt → b ≡ false
throw_if-ok true what h = cc
throw_if-ok false what h = refl

pub bind-eq-ok {ℓ κ} :
    {E : Type 0} {A : Type ℓ} {B : Type κ} (m : Result E A) (f : A → Result E B) {b : B}
    → (m >>= f) ≡ ok b
    → (a : A) × (m ≡ ok a) × (f a ≡ ok b)
bind-eq-ok (ok a) f h = (a, refl, h)
bind-eq-ok (err e) f h = cc

pub Result-cases {ℓ} :
    {E : Type 0} {A : Type ℓ} (r : Result E A) → ((a : A) × (r ≡ ok a)) ⊎ ((e : E) × (r ≡ err e))
Result-cases (ok a) = inl (a, refl)
Result-cases (err e) = inr (e, refl)

pub ok_inj {ℓ} : {E : Type 0} {A : Type ℓ} {a b : A} → ◌≡◌ {A = Result E A} (ok a) (ok b) → a ≡ b
ok_inj h = cc h

-- What a call returns satisfies `P`, if it returns.
pub data Ensures {ℓ} {E : Type 0} {A : Type ℓ} (P : A → Type 0) : Result E A → Type ℓ where
  returned : (a : A) → P a → Ensures P (ok a)
  failed : (e : E) → Ensures P (err e)

pub ensured {ℓ} :
    {E : Type 0} {A : Type ℓ} {P : A → Type 0} (m : Result E A)
    → ((a : A) → m ≡ ok a → P a)
    → Ensures P m
ensured (ok a) h = returned a (h a refl)
ensured (err e) h = failed e

pub any {ℓ} : {E : Type 0} {A : Type ℓ} (m : Result E A) → Ensures (λ a. Unit) m
any m = ensured m (λ a e. tt)

pub Ensures-bind {ℓ κ} :
    {E : Type 0} {A : Type ℓ} {B : Type κ} {Q : A → Type 0} {P : B → Type 0} {m : Result E A}
    {f : A → Result E B}
    → Ensures Q m
    → ((a : A) → Q a → Ensures P (f a))
    → Ensures P (m >>= f)
Ensures-bind (returned a q) h = h a q
Ensures-bind (failed e) h = failed e

pub holds {ℓ} :
    {E : Type 0} {A : Type ℓ} {P : A → Type 0} {m : Result E A}
    → Ensures P m
    → (a : A) → m ≡ ok a
    → P a
holds {P} (returned b p) a e = subst P (ok_inj e) p
holds (failed what) a e = cc

pub Ensures-map {ℓ} :
    {E : Type 0} {A : Type ℓ} {P Q : A → Type 0} {m : Result E A}
    → ((a : A) → P a → Q a)
    → Ensures P m
    → Ensures Q m
Ensures-map f (returned a p) = returned a (f a p)
Ensures-map f (failed e) = failed e
