-- ===== src/Manifest/Dotenv/Named.antt =====
-- The names that the dotenv parser returns.
use secretov.Prelude.{
  ◌≡◌, refl, ℕ, suc, Option, none, some, true, is_some, List, [], ◌∷◌, take, drop, arith,
  Bool-cases, Option-cases, ◌==◌, ◌⊎◌, inl, inr, ap,
}
use secretov.Prelude.Map.{Map, lookup, insert, lookup-insert}
use secretov.Prelude.Result.{
  ok, Ensures, returned, failed, any, ensured, Ensures-bind, holds, Result-cases,
}
use secretov.Prelude.Text.{Text, text_eq, text_eq→eq, text_eq_refl, find_byte}
use secretov.Manifest.Dotenv.{
  drop_cr, skip_blanks, pop_blanks, drop_export, parse_value, fresh_key, Setting, parse_assignment,
  parse_line, parse_settings, parse_dotenv,
}
use secretov.Manifest.Dotenv.Written.{AreNames, AreNew}
use secretov.Manifest.EnvNames.{is_identifier}
use secretov.Manifest.Lines.{split_lines}
use secretov.Manifest.Parse.{KeyValues}

List-cases {ℓ} :
    {A : Type ℓ} (xs : List A) → (xs ≡ []) ⊎ (x : A) × (rest : List A) × (xs ≡ x ∷ rest)
List-cases [] = inl refl
List-cases (x ∷ xs) = inr (x, xs, refl)

IsFresh : Map ℕ → Text → Type 0
IsFresh seen key = (is_identifier key ≡ true) × (lookup key seen ≡ none)

fresh_key-IsFresh :
    (lineno : ℕ) (seen : Map ℕ) (name : Text) → Ensures (IsFresh seen) (fresh_key lineno seen name)
unfolding fresh_key IsFresh
fresh_key-IsFresh lineno seen name = ensured _ (λ key h. ground (arith, h))

parse_assignment-IsFresh :
    (lineno : ℕ) (seen : Map ℕ) (line : Text)
    → Ensures (λ setting. IsFresh seen setting.key) (parse_assignment lineno seen line)
unfolding parse_assignment
parse_assignment-IsFresh lineno seen line = elim (Option-cases (find_byte b'=' line)) [
  | inl e ↦ rw (parse_assignment, e) (failed _)
  | inr (eq, e) ↦
      rw (parse_assignment, e)
        (Ensures-bind (fresh_key-IsFresh lineno seen (pop_blanks (take eq line))) λ key fresh.
          Ensures-bind (any (parse_value lineno key (drop (suc eq) line)))
            λ read _. returned _ fresh)
]

abbrev IsFreshIf : Map ℕ → Option Setting → Type 0
IsFreshIf seen none = Unit
IsFreshIf seen (some setting) = IsFresh seen setting.key

parse_line-IsFresh :
    (lineno : ℕ) (seen : Map ℕ) (line : Text)
    → Ensures (IsFreshIf seen) (parse_line lineno seen line)
unfolding parse_line
parse_line-IsFresh lineno seen line = elim (List-cases (skip_blanks (drop_cr line))) [
  | inl e ↦ rw (parse_line, e) (returned none tt)
  | inr (c, rest, e) ↦ elim (Bool-cases (c == b'#')) [
    | inl f ↦ rw (parse_line, e, f) (returned none tt)
    | inr f ↦
        rw (parse_line, e, f)
          (Ensures-bind (parse_assignment-IsFresh lineno seen (drop_export (c ∷ rest)))
            λ setting fresh. returned (some setting) fresh)
  ]
]

AreFresh : Map ℕ → KeyValues → Type 0
AreFresh seen out = AreNames out × AreNew seen out

AreFresh-cons :
    (lineno : ℕ) (seen : Map ℕ) (key value : Text) (out : KeyValues)
    → IsFresh seen key
    → AreFresh (insert key lineno seen) out
    → AreFresh seen ((key, value) ∷ out)
unfolding AreFresh AreNew IsFresh lookup
AreFresh-cons lineno seen key value out (named, new) (names, later) = (
  (
    named,
    elim (Option-cases (lookup key out)) [
      | inl e ↦ e
      | inr (again, e) ↦
          absurd
            (cc (later key (ap is_some e), lookup-insert key key lineno seen, text_eq_refl key))
    ],
    names,
  ),
  λ other found. elim (Bool-cases (text_eq key other)) [
    | inl same ↦ ground (arith, new, text_eq→eq key other same)
    | inr apart ↦ ground (
      arith,
      apart,
      found,
      later other (ground (arith, apart, found)),
      lookup-insert key other lineno seen,
    )
  ],
)

parse_settings-AreFresh :
    (lineno : ℕ) (seen : Map ℕ) (lines : List Text)
    → Ensures (AreFresh seen) (parse_settings lineno seen lines).1
unfolding parse_settings AreFresh AreNew lookup
parse_settings-AreFresh lineno seen [] = returned [] (tt, λ key found. cc found)
parse_settings-AreFresh lineno seen (line ∷ lines) =
    elim (Result-cases (parse_line lineno seen line)) [
      | inr (what, e) ↦ rw (parse_settings, e) (failed what)
      | inl (none, e) ↦ rw (parse_settings, e) (parse_settings-AreFresh (suc lineno) seen lines)
      | inl (some setting, e) ↦
          rw (parse_settings, e)
            (Ensures-bind
              (parse_settings-AreFresh (suc lineno) (insert setting.key lineno seen) lines)
              λ rest fresh. returned _ (
                AreFresh-cons lineno seen setting.key setting.value rest
                  (holds (parse_line-IsFresh lineno seen line) (some setting) e) fresh))
    ]

-- Where the parser returns settings, every name is an identifier and no name is set twice,
-- whatever the text.
parse_dotenv-AreNames :
    (text : Text) {out : KeyValues} → (parse_dotenv text).1 ≡ ok out → AreNames out
unfolding parse_dotenv AreFresh
parse_dotenv-AreNames text {out} h =
    (holds (parse_settings-AreFresh 1 [] (split_lines text)) out h).0
