-- ===== src/Store/Contents.antt =====
-- What a reader of the store sees: `get`, `list` and `get_prefix` against `set` and `remove`.
use secretov.Prelude.{
  ◌≡◌, ap, ◌∙◌, none, some, true, false, arith, is_some, if◌then◌else◌, [], ◌∷◌, inl, inr,
  Bool-cases,
}
use secretov.Prelude.Map.{Map, lookup, keys, lookup-insert, lookup-erase, mem_text-keys}
use secretov.Prelude.Sorting.{mem_text, IsSorted, sort-IsSorted, mem_text-sort}
use secretov.Prelude.Text.{Text, text_eq, text_eq_iff, starts_with}
use secretov.Prelude.Result.{ok, err, Result-cases}
use secretov.Platform.{Platform, JsonLaws}
use secretov.Io.{World}
use secretov.Store.{Store, get_string, get, set, remove, list, collect_prefix, get_prefix}
use secretov.Store.Changes.{set-AllOrNothing, remove-AllOrNothing}
use secretov.Store.Reopen.{IsStored}

module _ (p : Platform) (s : Store p) (w : World) (stored : IsStored p s w.disk) where
  -- After a `set` that returned, `get` gives the new value for its key and what it gave before for
  -- every other key; after one that threw, it gives what it gave before.
  pub get-set :
      (laws : JsonLaws p.json) (k value j : Text)
      → get p (set p s k value w).store j ≡ elim (set p s k value w).result [
        | ok _ ↦ if text_eq k j then ok (some value) else get p s j
        | err _ ↦ get p s j
      ]
  unfolding get
  get-set laws k value j = elim (set-AllOrNothing p s k w value stored).0 [
    | inl (r, e) ↦
        rw (r, e)
          (rw (lookup-insert k j (p.json.string value) s.members)
            (ground (arith, laws.as_string-string value)))
    | inr (e, r, same, _) ↦ rw (r, same)
  ]

  -- `remove` that returned true leaves no value for its key and every other key as it was; one that
  -- returned false met no such key; and then, or where it threw, `get` gives what it gave before.
  get-remove :
      (k j : Text)
      → get p (remove p s k w).store j ≡ elim (remove p s k w).result [
        | ok _ ↦ if text_eq k j then ok none else get p s j
        | err _ ↦ get p s j
      ]
  unfolding get
  get-remove k j =
      let (absent, present, _) = remove-AllOrNothing p s k w stored in
      elim (Bool-cases (is_some (lookup k s.members))) [
        | inr e ↦ rw (absent e) (missing k j e)
        | inl e ↦ elim (present e) [
          | inl (r, h) ↦ rw (r, h) (rw (lookup-erase k j s.members) (ground arith))
          | inr (_, r, same, _) ↦ rw (r, same)
        ]
      ]
    where
      missing :
          (k j : Text)
          → is_some (lookup k s.members) ≡ false
          → get_string p (lookup j s.members)
            ≡ (if text_eq k j then ok none else get_string p (lookup j s.members))
      missing k j e = elim (Bool-cases (text_eq k j)) [
        | inr d ↦ rw d
        | inl d ↦ rw (← (text_eq_iff k j).0 d) (ground arith)
      ]

module _ (p : Platform) where
  -- `list` gives the keys in byte order, and a key is in it exactly if the store has it.
  list_lem :
      (s : Store p)
      → IsSorted (list p s) × ((k : Text) → mem_text k (list p s) ≡ is_some (lookup k s.members))
  unfolding list
  list_lem s = (
    sort-IsSorted (keys s.members),
    λ k. mem_text-sort k (keys s.members) ∙ mem_text-keys k s.members,
  )

  starts_with-eq :
      (prefix j k : Text) → text_eq j k ≡ true → starts_with prefix j ≡ starts_with prefix k
  starts_with-eq prefix j k h = ap (starts_with prefix) ((text_eq_iff j k).0 h)

  collect_prefix_lem :
      (prefix : Text) (m : Map p.json.Value) (out : Map Text) (k : Text)
      → collect_prefix p prefix m ≡ ok out
      → (if starts_with prefix k then get_string p (lookup k m) else ok none) ≡ ok (lookup k out)
  unfolding collect_prefix lookup get_string
  collect_prefix_lem prefix [] out k h = ground arith
  collect_prefix_lem prefix ((j, v) ∷ m) out k h = elim (Result-cases (collect_prefix p prefix m)) [
    | inl (rest, e) ↦
        ground (arith, e, collect_prefix_lem prefix m rest k e, starts_with-eq prefix j k)
    | inr (what, e) ↦ ground (arith, e)
  ]

  -- `get_prefix`, where it returns, gives each key with the prefix the value that `get` gives it,
  -- and holds no other key.
  pub get_prefix_lem :
      (s : Store p) (prefix : Text) (out : Map Text) (k : Text)
      → get_prefix p s prefix ≡ ok out
      → (if starts_with prefix k then get p s k else ok none) ≡ ok (lookup k out)
  unfolding get_prefix get
  get_prefix_lem s prefix out k h = collect_prefix_lem prefix s.members out k h
