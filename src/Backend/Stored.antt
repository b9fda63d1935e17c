-- ===== src/Backend/Stored.antt =====
-- A client that is answered from a store, as the daemon's dispatch answers get and getprefix: its
-- replies to the two requests agree.
use secretov.Prelude.{
  ◌≡◌, Option, none, some, List, [], ◌∷◌, map, if◌then◌else◌, arith, Option-cases, inl, inr,
}
use secretov.Prelude.Map.{Map, lookup, emplace, lookup-insert}
use secretov.Prelude.Result.{Result, ok, err, Result-cases, ok_inj}
use secretov.Prelude.Text.{Text, lit, text_eq, text_eq_iff, text_eq_refl}
use secretov.Backend.{
  Client, Failure, runtime, as_backend_error, take_string, find_in_scope, scope_from, local_request,
  fetch_one, fetch_scope,
}
use secretov.Backend.Single.{IsConsistent}
use secretov.Platform.{Platform}
use secretov.Protocol.{not_found}
use secretov.Store.{Store, get, get_prefix}
use secretov.Store.Contents.{get_prefix_lem}

pub data Reply : Type 0 where
  one : Text → Reply
  many : Map Text → Reply

unfoldable pub reply_value : Reply → Option Text
reply_value (one value) = some value
reply_value (many values) = none

unfoldable pub reply_values : Reply → List (Text × Option Text)
reply_values (one value) = []
reply_values (many values) = map (λ (e : Text × Text). (e.0, some e.1)) values

unfoldable pub found : Result Text (Option Text) → Result Failure Reply
found (ok (some value)) = ok (one value)
found (ok none) = err (runtime not_found)
found (err what) = err (runtime what)

unfoldable pub found_scope : Result Text (Map Text) → Result Failure Reply
found_scope (ok values) = ok (many values)
found_scope (err what) = err (runtime what)

or_else : Option Text → Option Text → Option Text
or_else none later = later
or_else (some v) later = some v

lookup-emplace :
    (k j v : Text) (m : Map Text)
    → lookup j (emplace k v m) ≡ or_else (lookup j m) (if text_eq k j then some v else none)
unfolding emplace or_else
lookup-emplace k j v m = elim (Option-cases (lookup k m)) [
  | inl e ↦ ground (arith, e, lookup-insert k j v m, text_eq_iff k j)
  | inr (w, e) ↦ ground (arith, e, text_eq_iff k j)
]

-- The items of a map, emplaced behind what is there.
lookup-scope_from :
    (path : Text) (values scope after : Map Text)
    → scope_from (map (λ (e : Text × Text). (e.0, some e.1)) values) scope ≡ ok after
    → lookup path after ≡ or_else (lookup path scope) (lookup path values)
unfolding scope_from lookup take_string or_else
lookup-scope_from path [] scope after h = ground (arith, ok_inj h)
lookup-scope_from path ((k, v) ∷ values) scope after h = ground (
  arith,
  lookup-emplace k path v scope,
  lookup-scope_from path values (emplace k v scope) after h,
)

module _ (p : Platform) (s : Store p) where
  unfoldable pub stored_request : Text → Text → Option Text → Result Failure Reply
  stored_request op key value =
      if text_eq op (lit "get") then found (get p s key) else found_scope (get_prefix p s key)

  abbrev pub stored_client : Client
  stored_client = record {
    Reply = Reply;
    request = stored_request;
    value = reply_value;
    values = reply_values;
  }

  fetch_one-stored :
      (path : Text) (held : Option Text)
      → get p s path ≡ ok held
      → (scope : Map Text) → lookup path scope ≡ held
      → find_in_scope scope path ≡ fetch_one stored_client path
  unfolding fetch_one find_in_scope local_request stored_request found reply_value take_string
      as_backend_error lit text_eq
  fetch_one-stored path none e scope f = ground (arith, e, f, text_eq_refl not_found)
  fetch_one-stored path (some v) e scope f = ground (arith, e, f)

  fetch_scope-stored :
      (prefix : Text) {scope : Map Text}
      → fetch_scope stored_client prefix ≡ ok scope
      → (out : Map Text) × (get_prefix p s prefix ≡ ok out)
        × (scope_from (map (λ (e : Text × Text). (e.0, some e.1)) out) [] ≡ ok scope)
  unfolding fetch_scope local_request stored_request found_scope reply_values lit text_eq
  fetch_scope-stored prefix {scope} h = elim (Result-cases (get_prefix p s prefix)) [
    | inl (out, e) ↦ (out, e, ground (arith, e, h))
    | inr (what, e) ↦ ground (arith, e, h)
  ]

  pub stored_client-IsConsistent : IsConsistent stored_client
  unfolding lookup or_else
  stored_client-IsConsistent = record {
    same = λ prefix path scope fetched inside.
        let (out, e, f) = fetch_scope-stored prefix fetched in
        fetch_one-stored path (lookup path out)
          (ground (arith, inside, get_prefix_lem p s prefix out path e)) scope
          (lookup-scope_from path out [] scope f);
  }
