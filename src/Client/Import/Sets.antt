-- ===== src/Client/Import/Sets.antt =====
-- The sets of an import, one after the other.
use secretov.Prelude.{◌≡◌, refl, Bool, true, false, ◌⊎◌, List, [], ◌∷◌, ◌++◌, inl, inr}
use secretov.Prelude.Result.{ok, err, Result-cases}
use secretov.Prelude.Text.{Text}
use secretov.Client.Import.{Server, check_all, set_all, of_var}
use secretov.Manifest.Parse.{KeyValues}
use secretov.Manifest.Scopes.{scoped_key}

module _ {σ : Type 0} (server : Server σ) (env project : Text) where
  -- Each pair can be sent under its key.
  pub data AllSendable : KeyValues → Type 0 where
    no_more : AllSendable []
    sendable :
        {var value key : Text} {pairs : KeyValues}
        → scoped_key env project var ≡ ok key
        → server.check_set key value ≡ ok tt
        → AllSendable pairs
        → AllSendable ((var, value) ∷ pairs)

  -- The pairs are set one after the other, each acknowledged, up to the end or to one that is not.
  pub data SetsInOrder : KeyValues → σ → σ → Bool → Type 0 where
    all_set : {s : σ} → SetsInOrder [] s s true
    refused :
        {var value key what : Text} {pairs : KeyValues} {s : σ}
        → scoped_key env project var ≡ ok key
        → (server.set key value s).0 ≡ err what
        → SetsInOrder ((var, value) ∷ pairs) s (server.set key value s).1 false
    set_one :
        {var value key : Text} {pairs : KeyValues} {s t : σ} {complete : Bool}
        → scoped_key env project var ≡ ok key
        → (server.set key value s).0 ≡ ok tt
        → SetsInOrder pairs (server.set key value s).1 t complete
        → SetsInOrder ((var, value) ∷ pairs) s t complete

  pub check_all-AllSendable :
      (pairs : KeyValues) → check_all server env project pairs ≡ ok tt → AllSendable pairs
  unfolding check_all of_var
  check_all-AllSendable [] h = no_more
  check_all-AllSendable ((var, value) ∷ pairs) h =
      elim (Result-cases (scoped_key env project var)) [
        | inr (what, k) ↦ cc (rw k at h)
        | inl (key, k) ↦ elim (Result-cases (server.check_set key value)) [
          | inr (what, c) ↦ cc (rw (k, c) at h)
          | inl (u, c) ↦ sendable k c (check_all-AllSendable pairs (rw (k, c) at h))
        ]
      ]

  pub set_all-SetsInOrder :
      (pairs : KeyValues) (stored : List Text) (s : σ)
      → AllSendable pairs
      → ((set_all server env project pairs stored s).0 ≡ ok tt
          × SetsInOrder pairs s (set_all server env project pairs stored s).1 true)
        ⊎ ((what : Text) × ((set_all server env project pairs stored s).0 ≡ err what)
            × SetsInOrder pairs s (set_all server env project pairs stored s).1 false)
  unfolding set_all of_var
  set_all-SetsInOrder [] stored s a = inl (refl, all_set)
  set_all-SetsInOrder ((var, value) ∷ pairs) stored s (sendable {key} k c a) =
      elim (Result-cases (server.set key value s).0) [
        | inr (what, e) ↦ rw (set_all, k, e) (inr (_, refl, refused k e))
        | inl (u, e) ↦
            elim (set_all-SetsInOrder pairs (stored ++ (key ∷ [])) (server.set key value s).1 a) [
              | inl (r, order) ↦ rw (set_all, k, e) (inl (r, set_one k e order))
              | inr (what, r, order) ↦ rw (set_all, k, e) (inr (what, r, set_one k e order))
            ]
      ]
