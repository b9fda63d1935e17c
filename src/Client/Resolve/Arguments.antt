-- ===== src/Client/Resolve/Arguments.antt =====
-- The arguments that name one entry.
use secretov.Prelude.{
  and_both, some_inj, ◌≡◌, sym, subst, Option, none, some, Bool, true, false, not, ◌||◌, ◌&&◌, List,
  [], ◌∷◌, arith, is_some, Option-cases, Bool-cases, inl, inr,
}
use secretov.Prelude.Text.{Text, lit, is_empty, text_eq, text_eq→eq, starts_with}
use secretov.Client.Plan.{ScopeArgs}
use secretov.Client.Resolve.{
  named, Next, any_argument, project_of, env_of, scope_flag, flag_at, ends_entry, parse_entry_args,
}

-- An argument list and its arguments that are neither a flag nor the value of one. Behind "--",
-- which only a raw key's list has, nothing is a flag.
pub data HasPositionals (raw_key : Bool) : Bool → List Text → List Text → Type 0 where
  end : {options_ended : Bool} → HasPositionals raw_key options_ended [] []
  marker :
      {rest names : List Text}
      → raw_key ≡ true
      → HasPositionals raw_key true rest names
      → HasPositionals raw_key false (lit "--" ∷ rest) names
  flag :
      {arg value : Text} {rest names : List Text} {next : Next}
      → scope_flag raw_key arg ≡ some next
      → HasPositionals raw_key false rest names
      → HasPositionals raw_key false (arg ∷ value ∷ rest) names
  positional :
      {options_ended : Bool} {arg : Text} {rest names : List Text}
      → is_empty arg ≡ false
      → HasPositionals raw_key options_ended rest names
      → HasPositionals raw_key options_ended (arg ∷ rest) (arg ∷ names)

-- What is still to come, where `name` has been seen and `n` is the name in the end.
abbrev names_left : Option Text → Text → List Text
names_left none n = n ∷ []
names_left (some m) n = []

abbrev IsSame : Option Text → Text → Type 0
IsSame none n = Unit
IsSame (some m) n = m ≡ n

abbrev Reads : Bool → Next → List Text → Bool → Option Text → Text → Type 0
Reads raw_key any_argument args options_ended name n =
    HasPositionals raw_key options_ended args (names_left name n) × IsSame name n
Reads raw_key (project_of f) [] options_ended name n = ⊥
Reads raw_key (project_of f) (value ∷ rest) options_ended name n =
    HasPositionals raw_key options_ended rest (names_left name n) × IsSame name n
Reads raw_key (env_of f) [] options_ended name n = ⊥
Reads raw_key (env_of f) (value ∷ rest) options_ended name n =
    HasPositionals raw_key options_ended rest (names_left name n) × IsSame name n

named_inj : {n m : Text} {s t : ScopeArgs} → named n s ≡ named m t → n ≡ m
named_inj h = cc h

ends-Reads :
    (raw_key options_ended : Bool) (name : Option Text) (scope : ScopeArgs) (n : Text)
    (sc : ScopeArgs)
    → ends_entry raw_key name scope ≡ named n sc
    → Reads raw_key any_argument [] options_ended name n
unfolding ends_entry
ends-Reads raw_key options_ended (some m) scope n sc h = (end, named_inj h)
ends-Reads true options_ended none scope n sc h = cc
ends-Reads false options_ended none scope n sc h = cc

no_flag_alone : (raw_key : Bool) (arg : Text) → scope_flag raw_key arg ≡ some any_argument → ⊥
unfolding scope_flag
no_flag_alone raw_key arg h = ground (arith, h)

scope_flag-Reads :
    (raw_key : Bool) (arg : Text) (rest : List Text) (next : Next) (name : Option Text) (n : Text)
    → scope_flag raw_key arg ≡ some next
    → Reads raw_key next rest false name n
    → Reads raw_key any_argument (arg ∷ rest) false name n
scope_flag-Reads raw_key arg rest any_argument name n h r = absurd (no_flag_alone raw_key arg h)
scope_flag-Reads raw_key arg [] (project_of f) name n h r = absurd r
scope_flag-Reads raw_key arg [] (env_of f) name n h r = absurd r
scope_flag-Reads raw_key arg (value ∷ rest) (project_of f) name n h (line, same) =
    (flag h line, same)
scope_flag-Reads raw_key arg (value ∷ rest) (env_of f) name n h (line, same) = (flag h line, same)

-- A first argument that is a flag.
flag-Reads :
    (raw_key ended' options_ended : Bool) (arg : Text) (rest : List Text) (next : Next)
    (name : Option Text) (n : Text)
    → flag_at raw_key options_ended arg ≡ some (ended', next)
    → Reads raw_key next rest ended' name n
    → Reads raw_key any_argument (arg ∷ rest) options_ended name n
unfolding flag_at
flag-Reads raw_key ended' true arg rest next name n h r = cc
flag-Reads raw_key ended' false arg rest next name n h r =
    elim (Bool-cases (raw_key && text_eq arg (lit "--"))) [
      | inl e ↦
          let (raw, dashes) = and_both raw_key (text_eq arg (lit "--")) e in
          let same : ◌≡◌ {A = Bool × Next} (true, any_argument) (ended', next) =
            some_inj (rw (flag_at, e) at h) in
          let (line, known) =
            subst (λ (q : Bool × Next). Reads raw_key q.1 rest q.0 name n) (sym same) r in
          (
            subst (λ (t : Text). HasPositionals raw_key false (t ∷ rest) (names_left name n))
                (sym (text_eq→eq arg (lit "--") dashes)) (marker raw line),
            known,
          )
      | inr e ↦ elim (Option-cases (scope_flag raw_key arg)) [
        | inl g ↦ cc (rw (flag_at, e, g) at h)
        | inr (nx, g) ↦
            let same : ◌≡◌ {A = Bool × Next} (false, nx) (ended', next) =
              some_inj (rw (flag_at, e, g) at h) in
            scope_flag-Reads raw_key arg rest nx name n g
              (subst (λ (q : Bool × Next). Reads raw_key q.1 rest q.0 name n) (sym same) r)
      ]
    ]

name-Reads :
    (raw_key options_ended : Bool) (arg : Text) (rest : List Text) (name : Option Text) (n : Text)
    → (is_some name || (is_empty arg || (not raw_key && starts_with (lit "-") arg))) ≡ false
    → Reads raw_key any_argument rest options_ended (some arg) n
    → Reads raw_key any_argument (arg ∷ rest) options_ended name n
name-Reads raw_key options_ended arg rest (some m) n h r = cc
name-Reads raw_key options_ended arg rest none n h (line, same) = (
  subst (λ (t : Text). HasPositionals raw_key options_ended (arg ∷ rest) (t ∷ [])) same
      (positional (ground (arith, h)) line),
  tt,
)

parse_entry_args-Reads :
    (raw_key : Bool) (next : Next) (args : List Text) (options_ended : Bool) (name : Option Text)
    (scope : ScopeArgs) (n : Text) (sc : ScopeArgs)
    → parse_entry_args raw_key next args options_ended name scope ≡ named n sc
    → Reads raw_key next args options_ended name n
unfolding parse_entry_args
parse_entry_args-Reads raw_key any_argument [] options_ended name scope n sc h =
    ends-Reads raw_key options_ended name scope n sc h
parse_entry_args-Reads raw_key (project_of f) [] options_ended name scope n sc h = cc
parse_entry_args-Reads raw_key (env_of f) [] options_ended name scope n sc h = cc
parse_entry_args-Reads raw_key (project_of f) (value ∷ rest) options_ended name scope n sc h =
    parse_entry_args-Reads raw_key any_argument rest options_ended name _ n sc h
parse_entry_args-Reads raw_key (env_of f) (value ∷ rest) options_ended name scope n sc h =
    parse_entry_args-Reads raw_key any_argument rest options_ended name _ n sc h
parse_entry_args-Reads raw_key any_argument (arg ∷ rest) options_ended name scope n sc h =
    elim (Option-cases (flag_at raw_key options_ended arg)) [
      | inr ((ended', next), e) ↦ flag-Reads raw_key ended' options_ended arg rest next name n e (
          parse_entry_args-Reads raw_key next rest ended' name scope n sc
            (rw (parse_entry_args, e) at h))
      | inl e ↦
          elim (Bool-cases
            (is_some name || (is_empty arg || (not raw_key && starts_with (lit "-") arg)))) [
              | inl bad ↦ cc (rw (parse_entry_args, e, bad) at h)
              | inr good ↦ name-Reads raw_key options_ended arg rest name n good (
                  parse_entry_args-Reads raw_key any_argument rest options_ended (some arg) scope n
                    sc (rw (parse_entry_args, e, good) at h))
            ]
    ]

-- What get, set and delete take for NAME is the one argument of the list that is neither a flag nor
-- the value of one; so a list with a second such argument, a value on the command line, is never
-- accepted.
pub parse_entry_args-HasPositionals :
    (raw_key : Bool) (args : List Text) (scope : ScopeArgs) (name : Text) (resolved : ScopeArgs)
    → parse_entry_args raw_key any_argument args false none scope ≡ named name resolved
    → HasPositionals raw_key false args (name ∷ [])
parse_entry_args-HasPositionals raw_key args scope name resolved h =
    (parse_entry_args-Reads raw_key any_argument args false none scope name resolved h).0
