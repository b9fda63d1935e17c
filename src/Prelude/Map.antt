-- ===== src/Prelude/Map.antt =====
-- std::map with string keys, as the list of its entries: kept in key order by insertion.
use secretov.Prelude.{
  ◌≡◌, refl, Option, none, some, List, [], ◌∷◌, arith, is_some, if◌then◌else◌, ◌||◌, subst, inl,
  inr, Option-cases, Bool-cases,
}
use secretov.Prelude.Sorting.{mem_text}
use secretov.Prelude.Text.{Text, text_eq, text_lt, text_eq_iff, text_eq→eq}

abbrev pub Map {ℓ} : Type ℓ → Type ℓ
Map V = List (Text × V)

module _ {ℓ} {V : Type ℓ} where
  -- m.find(k)
  unfoldable pub lookup : Text → Map V → Option V
  lookup k [] = none
  lookup k ((j, v) ∷ m) = if text_eq j k then some v else lookup k m

  -- m[k] = v
  unfoldable pub insert : Text → V → Map V → Map V
  insert k v [] = (k, v) ∷ []
  insert k v ((j, w) ∷ m) =
      let later = (j, w) ∷ insert k v m in
      if text_eq j k then (k, v) ∷ m else if text_lt k j then (k, v) ∷ (j, w) ∷ m else later

  -- m.emplace(k, v): an entry that is there stays.
  unfoldable pub emplace : Text → V → Map V → Map V
  unfolding lookup insert
  emplace k v m = elim (lookup k m) [ none ↦ insert k v m | some w ↦ m ]

  -- m.erase(k)
  unfoldable pub erase : Text → Map V → Map V
  erase k [] = []
  erase k ((j, v) ∷ m) = let rest = erase k m in if text_eq j k then rest else (j, v) ∷ rest

  -- The keys in the map's order.
  unfoldable pub keys : Map V → List Text
  keys [] = []
  keys ((j, v) ∷ m) = j ∷ keys m

  pub lookup-insert :
      (k j : Text) (v : V) (m : Map V)
      → lookup j (insert k v m) ≡ (if text_eq k j then some v else lookup j m)
  unfolding lookup insert
  lookup-insert k j v [] = refl
  lookup-insert k j v ((i, w) ∷ m) =
      ground (arith, text_eq_iff k j, text_eq_iff i k, text_eq_iff i j, lookup-insert k j v m)

  pub is_some-emplace :
      (k j : Text) (v : V) (m : Map V)
      → is_some (lookup j (emplace k v m)) ≡ (text_eq k j || is_some (lookup j m))
  unfolding emplace
  is_some-emplace k j v m = elim (Option-cases (lookup k m)) [
    | inl e ↦ ground (arith, e, lookup-insert k j v m)
    | inr (w, e) ↦ ground (arith, e, text_eq_iff k j)
  ]

  -- What an emplaced map holds was there, or is the new value.
  pub emplace_holds {κ} :
      {R : Text → V → Type κ} (k : Text) (v : V) (m : Map V)
      → ((j : Text) (w : V) → lookup j m ≡ some w → R j w)
      → R k v
      → (j : Text) (w : V) → lookup j (emplace k v m) ≡ some w
      → R j w
  unfolding emplace
  emplace_holds {R} k v m h r j w e = elim (Option-cases (lookup k m)) [
    | inr (u, old) ↦ h j w (ground (arith, e, old))
    | inl new ↦ elim (Bool-cases (text_eq k j)) [
      | inr other ↦ h j w (ground (arith, e, new, other, lookup-insert k j v m))
      | inl same ↦
          subst (λ i. R i w) (text_eq→eq k j same)
            (subst (R k) (ground (arith, e, new, same, lookup-insert k j v m)) r)
    ]
  ]

  pub lookup-erase :
      (k j : Text) (m : Map V) → lookup j (erase k m) ≡ (if text_eq k j then none else lookup j m)
  unfolding lookup erase
  lookup-erase k j [] = ground arith
  lookup-erase k j ((i, w) ∷ m) =
      ground (arith, text_eq_iff k j, text_eq_iff i k, text_eq_iff i j, lookup-erase k j m)

  pub mem_text-keys : (k : Text) (m : Map V) → mem_text k (keys m) ≡ is_some (lookup k m)
  unfolding keys lookup
  mem_text-keys k [] = refl
  mem_text-keys k ((j, v) ∷ m) = ground (arith, mem_text-keys k m)
