-- ===== src/Manifest/Scopes/Isolated.antt =====
-- What a scope's request reads from the store.
use secretov.Prelude.{◌≡◌, ◌⊎◌, inl, inr, none, Bool-cases, arith}
use secretov.Prelude.Map.{Map, lookup}
use secretov.Prelude.Result.{ok}
use secretov.Prelude.Text.{Text, starts_with}
use secretov.Platform.{Platform}
use secretov.Store.{Store, get, get_prefix}
use secretov.Store.Contents.{get_prefix_lem}
use secretov.Manifest.Scopes.{scoped_key, scope_prefix}
use secretov.Manifest.Scopes.Separate.{scope_prefix-separates}

-- `get_prefix` with the prefix of a scope holds, under each key of the scope, what `get` gives for
-- it, and nothing under a key of another environment or project.
pub get_prefix-scope_prefix :
    (p : Platform) (s : Store p) (env project env' project' name : Text) (prefix key : Text)
    (out : Map Text)
    → scope_prefix env project ≡ ok prefix
    → scoped_key env' project' name ≡ ok key
    → get_prefix p s prefix ≡ ok out
    → ((env ≡ env') × (project ≡ project') × (get p s key ≡ ok (lookup key out)))
      ⊎ (¬ ((env ≡ env') × (project ≡ project')) × (lookup key out ≡ none))
get_prefix-scope_prefix p s env project env' project' name prefix key out h h' g =
    let (own, own') = scope_prefix-separates env project env' project' name h h' in
    let held = get_prefix_lem p s prefix out key g in
    elim (Bool-cases (starts_with prefix key)) [
      | inl e ↦ inl ((own e).0, (own e).1, rw e at held)
      | inr e ↦ inr (λ same. cc (e, own' same), ground (arith, (rw e at held)))
    ]
