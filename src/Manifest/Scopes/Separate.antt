-- ===== src/Manifest/Scopes/Separate.antt =====
-- No two entries share a key, and no scope sees another's.
use secretov.Prelude.{◌≡◌, ap, sym, ◌∙◌, true, none, [], ◌∷◌, ◌++◌, arith, append_assoc, ◌↔◌}
use secretov.Prelude.Bytes.{split_unique, starts_with-splits, starts_with-append}
use secretov.Prelude.Result.{ok}
use secretov.Prelude.Text.{Text, lit, find_byte, starts_with}
use secretov.Manifest.Scopes.{require_segment, scoped_key, scope_prefix}

-- A segment that passes has no '/'.
require_segment_lem : (s what : Text) → require_segment s what ≡ ok tt → find_byte b'/' s ≡ none
unfolding require_segment
require_segment_lem s what h = ground arith

-- What a key that was made consists of.
scoped_key_parts :
    (env project name : Text) {key : Text}
    → scoped_key env project name ≡ ok key
    → (find_byte b'/' env ≡ none)
      × (find_byte b'/' project ≡ none)
      × (find_byte b'/' name ≡ none)
      × (key ≡ env ++ b'/' ∷ (project ++ b'/' ∷ name))
unfolding scoped_key
scoped_key_parts env project name h = ground (
  arith,
  require_segment_lem env (lit "environment"),
  require_segment_lem project (lit "project"),
  require_segment_lem name (lit "secret name"),
)

scope_prefix_parts :
    (env project : Text) {prefix : Text}
    → scope_prefix env project ≡ ok prefix
    → (find_byte b'/' env ≡ none)
      × (find_byte b'/' project ≡ none)
      × (prefix ≡ env ++ b'/' ∷ (project ++ b'/' ∷ []))
unfolding scope_prefix
scope_prefix_parts env project h = ground (
  arith,
  require_segment_lem env (lit "environment"),
  require_segment_lem project (lit "project"),
)

-- Entries of which environment, project or name differ have different keys in the store.
scoped_key_unique :
    (env project name env' project' name' : Text) {key : Text}
    → scoped_key env project name ≡ ok key
    → scoped_key env' project' name' ≡ ok key
    → (env ≡ env') × (project ≡ project') × (name ≡ name')
scoped_key_unique env project name env' project' name' h h' =
    let (e, p, n, k) = scoped_key_parts env project name h in
    let (e', p', n', k') = scoped_key_parts env' project' name' h' in
    let (same, rest) = split_unique b'/' env env' _ _ e e' (sym k ∙ k') in
    let (same', same'') = split_unique b'/' project project' _ _ p p' rest in (same, same', same'')

behind :
    (env project t : Text)
    → (env ++ b'/' ∷ (project ++ b'/' ∷ [])) ++ t ≡ env ++ b'/' ∷ (project ++ b'/' ∷ t)
behind env project t =
    append_assoc env (b'/' ∷ (project ++ b'/' ∷ [])) t
    ∙ ap (λ s. env ++ b'/' ∷ s) (append_assoc project (b'/' ∷ []) t)

-- The prefix of a scope is a prefix of exactly the keys of that scope.
pub scope_prefix-separates :
    (env project env' project' name : Text) {prefix key : Text}
    → scope_prefix env project ≡ ok prefix
    → scoped_key env' project' name ≡ ok key
    → (starts_with prefix key ≡ true) ↔ ((env ≡ env') × (project ≡ project'))
scope_prefix-separates env project env' project' name {prefix} {key} h h' =
    let (e, p, k) = scope_prefix_parts env project h in
    let (e', p', n', k') = scoped_key_parts env' project' name h' in
    (
      (λ s.
          let (t, split) = starts_with-splits prefix key s in
          let (same, rest) =
            split_unique b'/' env env' _ _ e e'
              (sym (behind env project t) ∙ ap (λ q. q ++ t) (sym k) ∙ sym split ∙ k') in
          (same, (split_unique b'/' project project' _ _ p p' rest).0)),
      (λ same.
          rw (k, k', sym same.0, sym same.1, sym (behind env project name))
            (starts_with-append _ name)),
    )
