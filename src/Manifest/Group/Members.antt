-- ===== src/Manifest/Group/Members.antt =====
-- When no listed member and no account is added.
use secretov.Prelude.{
  ℕ, ◌≡◌, ◌↔◌, refl, Bool, true, false, List, [], ◌∷◌, ◌++◌, if◌then◌else◌, is_nil, arith,
}
use secretov.Prelude.Text.{Text, text_eq_iff}
use secretov.Manifest.Group.{ListedMember, GroupEntry, AccountEntry, add_listed, add_accounts}

-- Every listed member is us.
abbrev pub IsOnly : Text → List Text → Type 0
IsOnly my_name [] = Unit
IsOnly my_name (user ∷ users) = (user ≡ my_name) × IsOnly my_name users

-- Every entry of the gid has that name and lists no one but us.
abbrev pub AreOurs : ℕ → Text → Text → List GroupEntry → Type 0
AreOurs gid my_name group [] = Unit
AreOurs gid my_name group (entry ∷ groups) =
    (entry.gid ≡ gid → (entry.name ≡ group) × IsOnly my_name entry.members)
    × AreOurs gid my_name group groups

-- Every account with the gid is ours.
abbrev pub AreMine : ℕ → ℕ → List AccountEntry → Type 0
AreMine gid my_uid [] = Unit
AreMine gid my_uid (account ∷ accounts) =
    (account.gid ≡ gid → account.uid ≡ my_uid) × AreMine gid my_uid accounts

pub grown {ℓ} :
    {A : Type ℓ} (l : List A) (a : A) (b : Bool)
    → is_nil l ≡ false
    → is_nil (if b then l ++ a ∷ [] else l) ≡ false
grown [] a b h = cc
grown (x ∷ l) a true h = refl
grown (x ∷ l) a false h = refl

module _ (gid my_uid : ℕ) where
  pub add_accounts-keeps :
      (accounts : List AccountEntry) (primary : List Text)
      → is_nil primary ≡ false
      → is_nil (add_accounts gid my_uid accounts primary) ≡ false
  unfolding add_accounts
  add_accounts-keeps [] primary h = h
  add_accounts-keeps (account ∷ accounts) primary h =
      add_accounts-keeps accounts _ (grown primary account.name _ h)

  pub add_accounts-AreMine :
      (accounts : List AccountEntry)
      → (is_nil (add_accounts gid my_uid accounts []) ≡ true) ↔ AreMine gid my_uid accounts
  unfolding add_accounts
  add_accounts-AreMine [] = (λ _. tt, λ _. refl)
  add_accounts-AreMine (account ∷ accounts) =
      ground
        (arith, add_accounts-AreMine accounts, add_accounts-keeps accounts (account.name ∷ []) refl)

module _ (my_name group : Text) where
  pub add_listed-keeps :
      (users : List Text) (listed : List ListedMember)
      → is_nil listed ≡ false
      → is_nil (add_listed my_name group users listed) ≡ false
  unfolding add_listed
  add_listed-keeps [] listed h = h
  add_listed-keeps (user ∷ users) listed h = add_listed-keeps users _ (grown listed _ _ h)

  pub add_listed-IsOnly :
      (users : List Text)
      → (is_nil (add_listed my_name group users []) ≡ true) ↔ IsOnly my_name users
  unfolding add_listed
  add_listed-IsOnly [] = (λ _. tt, λ _. refl)
  add_listed-IsOnly (user ∷ users) = ground (
    arith,
    text_eq_iff user my_name,
    add_listed-IsOnly users,
    add_listed-keeps users (record { user = user; group = group } ∷ []) refl,
  )
