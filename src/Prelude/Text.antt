-- ===== src/Prelude/Text.antt =====
-- std::string as the list of its bytes, with the comparisons and searches that the code uses.
use Prim.Native.Nat.{ℕ, zero, suc, ◌+◌, ◌/◌, ◌%◌, ◌<◌}
use Prim.Native.Char.{code}
use Prim.Native.String.{String}
use mathlib.Core.Path.{◌≡◌, refl, ap}
use mathlib.Core.Logic.{◌↔◌, ◌≢◌, inl, inr}
use secretov.Prelude.Lists.{length, length-append}
use mathlib.Core.Bool.{Bool, true, false, ◌&&◌}
use mathlib.Core.List.{List, [], ◌∷◌, ◌++◌}
use mathlib.Core.Option
use mathlib.Core.Option.{Option, none, some}
use native.Mathlib.Omega.{arith}
use secretov.Prelude.Tests.{ltb, ◌==◌, if◌then◌else◌, Bool-cases}

abbrev pub Text : Type 0
Text = List ℕ

-- The bytes of an ASCII literal.
unfoldable pub lit : String → Text
lit String.[] = []
lit (String.◌∷◌ c s) = code c ∷ lit s

-- operator==
unfoldable pub text_eq : Text → Text → Bool
text_eq [] [] = true
text_eq (x ∷ xs) (y ∷ ys) = x == y && text_eq xs ys
text_eq _ _ = false

-- operator<: lexicographic on unsigned bytes.
unfoldable pub text_lt : Text → Text → Bool
text_lt [] [] = false
text_lt [] (y ∷ ys) = true
text_lt (x ∷ xs) [] = false
text_lt (x ∷ xs) (y ∷ ys) =
    let rest = text_lt xs ys in if ltb x y then true else if x == y then rest else false

-- s.compare(0, prefix.size(), prefix) == 0
unfoldable pub starts_with : Text → Text → Bool
starts_with [] s = true
starts_with (p ∷ ps) [] = false
starts_with (p ∷ ps) (c ∷ s) = p == c && starts_with ps s

-- s.find(c) != npos
unfoldable pub has_byte : ℕ → Text → Bool
has_byte b [] = false
has_byte b (c ∷ s) = if c == b then true else has_byte b s

-- s.find(c): the index of the first occurrence.
unfoldable pub find_byte : ℕ → Text → Option ℕ
find_byte b [] = none
find_byte b (c ∷ s) = if c == b then some 0 else Option.map suc (find_byte b s)

-- s.rfind(c), s.find_last_of(c): the index of the last occurrence.
unfoldable pub rfind_byte : ℕ → Text → Option ℕ
rfind_byte b [] = none
rfind_byte b (c ∷ s) = elim (rfind_byte b s) [
  | some i ↦ some (suc i)
  | none ↦ if c == b then some 0 else none
]

unfoldable pub is_empty : Text → Bool
is_empty [] = true
is_empty (c ∷ s) = false

-- std::to_string: decimal digits, the last first; n + 1 rounds are enough for n.
decimal : ℕ → ℕ → Text → Text
decimal zero n digits = digits
decimal (suc fuel) n digits =
    let digits' = (b'0' + n % 10) ∷ digits in
    let rest = decimal fuel (n / 10) digits' in if ltb n 10 then digits' else rest

unfoldable pub to_string : ℕ → Text
unfolding decimal
to_string n = decimal (n + 1) n []

pub text_eq_iff : (a b : Text) → (text_eq a b ≡ true) ↔ (a ≡ b)
unfolding text_eq
text_eq_iff (x ∷ a) (y ∷ b) = ground (arith, text_eq_iff a b)
text_eq_iff _ _ = ground arith

pub text_eq_refl : (a : Text) → text_eq a a ≡ true
text_eq_refl a = (text_eq_iff a a).1 refl

pub text_eq→eq : (a b : Text) → text_eq a b ≡ true → a ≡ b
text_eq→eq a b = (text_eq_iff a b).0

pub lit-append_ne : (a b : Text) → 0 < length b → a ++ b ≢ a
lit-append_ne a b h e = absurd (omega (arith, length-append a b, ap length e))

-- `a` is followed by something in `a ++ b`, so the two texts differ.
pub text_eq-append_self : (a b : Text) → 0 < length b → text_eq (a ++ b) a ≡ false
text_eq-append_self a b h = elim (Bool-cases (text_eq (a ++ b) a)) [
  | inl same ↦ absurd (lit-append_ne a b h (text_eq→eq _ _ same))
  | inr other ↦ other
]
