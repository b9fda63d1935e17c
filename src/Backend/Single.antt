-- ===== src/Backend/Single.antt =====
-- A batch is read with one request for each prefix, and gives what single requests give.
use secretov.Prelude.{
  ◌≡◌, refl, sym, subst, ◌⊎◌, inl, inr, none, some, Bool, true, false, ◌||◌, List, [], ◌∷◌, arith,
  is_some, Option-cases, Bool-cases,
}
use secretov.Prelude.Map.{Map, lookup, is_some-emplace, emplace_holds}
use secretov.Prelude.Result.{
  Result, ok, err, Ensures, returned, failed, ensured, Ensures-bind, Ensures-map, holds,
}
use secretov.Prelude.Sorting.{mem_text}
use secretov.Prelude.Text.{Text, text_eq, text_eq_iff, text_eq_refl, starts_with}
use secretov.Backend.{
  Client, BackendError, missing, Thrown, backend_error, exception, Fetched, prefix_of, group_from,
  is_batched, put_fetched, put_failure, Kind, find_in_scope, fetch_group, fetch_one, fetch_scope,
  fetch_grouped, fetch_groups, get_many,
}
use secretov.Backend.Grouped.{
  starts_with-prefix_of, of_prefix, is_grouped, is_in_group, group_from-is_grouped,
  is_in_group-group_from,
}

unfoldable pub is_fetched : Text → Fetched → Bool
is_fetched path fetched =
    is_some (lookup path fetched.values) || is_some (lookup path fetched.failures)

prefix_of-mem_text :
    (prefix path : Text) (group : List Text)
    → of_prefix prefix group ≡ true
    → mem_text path group ≡ true
    → prefix_of path ≡ prefix
unfolding of_prefix
prefix_of-mem_text prefix path [] h a = absurd (cc a)
prefix_of-mem_text prefix path (p ∷ group) h a = ground (
  arith,
  text_eq_iff p path,
  text_eq_iff (prefix_of p) prefix,
  prefix_of-mem_text prefix path group,
)

module _ (client : Client) where
  -- A reply to getprefix gives each key with the prefix what a reply to get gives it, at the same
  -- time.
  pub record IsConsistent : Type 0 where
    pub same :
        (prefix path : Text) (scope : Map Text)
        → fetch_scope client prefix ≡ ok scope
        → starts_with prefix path ≡ true
        → find_in_scope scope path ≡ fetch_one client path

  -- All that is held is what a single request gives.
  pub record IsSound (fetched : Fetched) : Type 0 where
    pub value_of :
        (path value : Text)
        → lookup path fetched.values ≡ some value
        → fetch_one client path ≡ ok value
    pub failure_of :
        (path : Text) (e : BackendError)
        → lookup path fetched.failures ≡ some e
        → fetch_one client path ≡ err (backend_error e)

  record Reaches (before : Fetched) (asked : Text → Bool) (after : Fetched) : Type 0 where
    sound : IsSound after
    grows : (path : Text) → is_fetched path before ≡ true → is_fetched path after ≡ true
    reached : (path : Text) → asked path ≡ true → is_fetched path after ≡ true

  put_failure-Reaches :
      (kind : Kind) (fetched : Fetched) (path : Text) (e : BackendError)
      → IsSound fetched
      → fetch_one client path ≡ err (backend_error e)
      → Ensures (Reaches fetched (text_eq path)) (put_failure kind fetched path e)
  unfolding put_failure is_fetched
  put_failure-Reaches missing fetched path e h f = returned _ (record {
    sound = record {
      value_of = h.value_of;
      failure_of = emplace_holds path e fetched.failures h.failure_of f;
    };
    grows = λ p g. ground (arith, g, is_some-emplace path p e fetched.failures);
    reached = λ p a. ground (arith, a, is_some-emplace path p e fetched.failures);
  })
  put_failure-Reaches _ fetched path e h f = failed _

  put_fetched-Reaches :
      (fetched : Fetched) (path : Text) (outcome : Result Thrown Text)
      → IsSound fetched
      → fetch_one client path ≡ outcome
      → Ensures (Reaches fetched (text_eq path)) (put_fetched fetched path outcome)
  unfolding put_fetched is_fetched
  put_fetched-Reaches fetched path (ok value) h e = returned _ (record {
    sound = record {
      value_of = emplace_holds path value fetched.values h.value_of e;
      failure_of = h.failure_of;
    };
    grows = λ p g. ground (arith, g, is_some-emplace path p value fetched.values);
    reached = λ p a. ground (arith, a, is_some-emplace path p value fetched.values);
  })
  put_fetched-Reaches fetched path (err (exception what)) h e = failed _
  put_fetched-Reaches fetched path (err (backend_error thrown)) h e =
      put_failure-Reaches thrown.kind fetched path thrown h e

  fetch_group-Reaches :
      (fetch_path : Text → Result Thrown Text) (group : List Text) (fetched : Fetched)
      → IsSound fetched
      → ((p : Text) → mem_text p group ≡ true → fetch_one client p ≡ fetch_path p)
      → Ensures (Reaches fetched (λ p. mem_text p group)) (fetch_group fetch_path group fetched)
  unfolding fetch_group
  fetch_group-Reaches fetch_path [] fetched h same =
      returned _ (record { sound = h; grows = λ p g. g; reached = λ p a. absurd (cc a) })
  fetch_group-Reaches fetch_path (path ∷ group) fetched h same =
      Ensures-bind
        (put_fetched-Reaches fetched path (fetch_path path) h
          (same path (ground (arith, text_eq_refl path))))
        λ later first.
          Ensures-map
            (λ after rest. record {
              sound = rest.sound;
              grows = λ p g. rest.grows p (first.grows p g);
              reached = λ p a. elim (Bool-cases (text_eq path p)) [
                | inl e ↦ rest.grows p (first.reached p e)
                | inr e ↦ rest.reached p (ground (arith, a, e))
              ];
            })
            (fetch_group-Reaches fetch_path group later first.sound
              (λ p a. same p (ground (arith, a))))

  -- A single request gives the value that is held, or the error that is held.
  unfoldable pub IsAsSingle : Fetched → Text → Type 0
  IsAsSingle fetched path =
      ((value : Text) × (fetch_one client path ≡ ok value)
        × (lookup path fetched.values ≡ some value)
        × (lookup path fetched.failures ≡ none))
      ⊎ ((e : BackendError) × (fetch_one client path ≡ err (backend_error e))
          × (lookup path fetched.values ≡ none)
          × (lookup path fetched.failures ≡ some e))

  sound-IsAsSingle :
      (fetched : Fetched) (path : Text)
      → IsSound fetched
      → is_fetched path fetched ≡ true
      → IsAsSingle fetched path
  unfolding is_fetched IsAsSingle
  sound-IsAsSingle fetched path h f = elim (Option-cases (lookup path fetched.values)) [
    | inl no_value ↦ elim (Option-cases (lookup path fetched.failures)) [
      | inl no_failure ↦ absurd (cc (f, no_value, no_failure))
      | inr (e, kept) ↦ inr (e, h.failure_of path e kept, no_value, kept)
    ]
    | inr (value, held) ↦ elim (Option-cases (lookup path fetched.failures)) [
      | inl no_failure ↦ inl (value, h.value_of path value held, held, no_failure)
      | inr (e, kept) ↦ absurd (cc (h.value_of path value held, h.failure_of path e kept))
    ]
  ]

  module _ (c : IsConsistent) where
    fetch_grouped-Reaches :
        (batched : Bool) (prefix : Text) (group : List Text) (fetched : Fetched)
        → IsSound fetched
        → of_prefix prefix group ≡ true
        → Ensures
            (Reaches fetched (λ p. mem_text p group))
            (fetch_grouped client batched prefix group fetched)
    unfolding fetch_grouped
    fetch_grouped-Reaches false prefix group fetched h g =
        fetch_group-Reaches (fetch_one client) group fetched h (λ p a. refl)
    fetch_grouped-Reaches true prefix group fetched h g =
        Ensures-bind (ensured (fetch_scope client prefix) (λ scope e. e)) λ scope e.
          fetch_group-Reaches (find_in_scope scope) group fetched h (λ p a. sym (
            c.same prefix p scope e (
              subst (λ q. starts_with q p ≡ true) (prefix_of-mem_text prefix p group g a)
                (starts_with-prefix_of p))))

    fetch_groups-Reaches :
        (groups : Map (List Text)) (fetched : Fetched)
        → IsSound fetched
        → is_grouped groups ≡ true
        → Ensures
            (Reaches fetched (λ p. is_in_group p (lookup (prefix_of p) groups)))
            (fetch_groups client groups fetched)
    unfolding fetch_groups is_grouped lookup is_in_group
    fetch_groups-Reaches [] fetched h g =
        returned _ (record { sound = h; grows = λ p f. f; reached = λ p a. absurd (cc a) })
    fetch_groups-Reaches ((prefix, group) ∷ groups) fetched h g =
        Ensures-bind
          (fetch_grouped-Reaches (is_batched prefix group) prefix group fetched h
            (ground (arith, g)))
          λ later first.
            Ensures-map
              (λ after rest. record {
                sound = rest.sound;
                grows = λ p f. rest.grows p (first.grows p f);
                reached = λ p a. elim (Bool-cases (text_eq prefix (prefix_of p))) [
                  | inl e ↦ rest.grows p (first.reached p (ground (arith, a, e)))
                  | inr e ↦ rest.reached p (ground (arith, a, e))
                ];
              })
              (fetch_groups-Reaches groups later first.sound (ground (arith, g)))

    -- Where a reply to getprefix gives each key with the prefix what a reply to get gives it, a
    -- batch that is fetched holds for each of its paths exactly what a single request for that
    -- path gives: the value, or the error that the secret is missing. The requests that are saved
    -- change nothing.
    pub get_many-IsAsSingle :
        (paths : List Text) {fetched : Fetched}
        → get_many client paths ≡ ok fetched
        → (path : Text) → mem_text path paths ≡ true
        → IsAsSingle fetched path
    unfolding get_many is_grouped lookup
    get_many-IsAsSingle paths {fetched} h path asked =
        let reaches =
          holds
            (fetch_groups-Reaches (group_from [] paths) (record { values = []; failures = [] })
              (record { value_of = λ p v e. absurd (cc e); failure_of = λ p e f. absurd (cc f) })
              (group_from-is_grouped paths [] refl))
            fetched h in
        sound-IsAsSingle fetched path reaches.sound
          (reaches.reached path (ground (arith, asked, is_in_group-group_from path paths [])))
