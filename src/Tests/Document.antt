-- ===== src/Tests/Document.antt =====
-- The manifest's parser on a small document, with a library whose documents are given as trees.
use secretov.Prelude.{
  ◌≡◌, refl, Option, none, some, Bool, true, false, List, [], ◌∷◌, if◌then◌else◌,
}
use secretov.Prelude.Result.{Result, ok, err}
use secretov.Prelude.Text.{Text, lit, text_eq, find_byte, has_byte, starts_with, is_empty}
use secretov.Manifest.Cloud.{local}
use secretov.Manifest.Document.{
  parse_manifest, is_set, parse_all_envs, parse_default, parse_env, parse_envs, refuse_twice,
  value_or, unfault, parse_document,
}
use secretov.Manifest.Document.Checked.{parse_manifest-IsValid}
use secretov.Manifest.Document.Valid.{IsValid}
use secretov.Manifest.Parse.{
  Manifest, text, parse_backend, parse_location, located, scalar_at, unknown_keys, refuse_other,
}
use secretov.Manifest.Entries.{
  finish_entry, local_entry, local_path, optional_scalar, parse_body, parse_entries, parse_entry,
  parse_env_secrets, parse_env_vars, parse_kind, parse_vars,
}
use secretov.Manifest.EnvNames.{
  all_identifier, ends_with, has_prefix_of, is_alnum, is_alpha, is_credential, is_denied_env_name,
  is_identifier, is_proxy, require_manifest_env_name, to_upper,
}
use secretov.Manifest.Scopes.{scoped_key, require_segment}
use secretov.Prelude.Map.{insert}
use secretov.Manifest.Yaml.{Yaml}

mutual
  pub data Tree : Type 0 where
    scalar : Text → Tree
    mapping : Entries → Tree

  pub data Entries : Type 0 where
    end : Entries
    entry : Text → Tree → Entries → Entries

unfoldable pub find : Entries → Text → Option Tree
find end key = none
find (entry name tree entries) key =
    let rest = find entries key in if text_eq name key then some tree else rest

unfoldable pub to_list : Entries → List (Tree × Tree)
to_list end = []
to_list (entry name tree entries) = (scalar name, tree) ∷ to_list entries

abbrev one : Text → Tree → Tree
one name tree = mapping (entry name tree end)

abbrev pub document : Tree
document = mapping (
    entry (lit "name") (scalar (lit "app")) (
      entry (lit "env")
        (one (lit "dev") (
          mapping (
            entry (lit "vars") (one (lit "MODE") (scalar (lit "fast"))) (
              entry (lit "secrets")
                (one (lit "db") (one (lit "env_var_name") (scalar (lit "DB_URL")))) end))))
        end))

unfoldable pub as_text : Tree → Result Text Text
as_text (scalar value) = ok value
as_text (mapping entries) = err (lit "bad conversion")

unfoldable pub is_mapping : Tree → Bool
is_mapping (scalar value) = false
is_mapping (mapping entries) = true

unfoldable pub is_a_scalar : Tree → Bool
is_a_scalar (scalar value) = true
is_a_scalar (mapping entries) = false

unfoldable pub child : Tree → Text → Option Tree
child (scalar value) key = none
child (mapping entries) key = find entries key

unfoldable pub children : Tree → List (Tree × Tree)
children (scalar value) = []
children (mapping entries) = to_list entries

abbrev pub trees : Yaml
trees = record {
  Node = Tree;
  load = λ source. ok document;
  as_string = as_text;
  is_map = is_mapping;
  is_null = λ tree. false;
  is_scalar = is_a_scalar;
  is_sequence = λ tree. false;
  get = child;
  subscript = λ tree k. ok (child tree k);
  pairs = children;
  items = λ tree. [];
}

abbrev pub read : Manifest
read = record {
  path = lit "m";
  project = lit "app";
  backend = record { type = local; location = [] };
  default_env = none;
  envs =
      (
        lit "dev",
        record {
          name = lit "db";
          kind = text;
          path = lit "dev/app/db";
          field = [];
          location = [];
          env_var = lit "DB_URL";
        }
            ∷ [],
      )
      ∷ [];
  vars = (lit "dev", (lit "MODE", lit "fast") ∷ []) ∷ [];
}

pub parsed : parse_manifest trees (lit "any") (lit "m") ≡ ok read
unfolding find_byte is_set parse_all_envs parse_default parse_env parse_envs refuse_twice value_or
    unfault parse_document finish_entry local_entry local_path optional_scalar parse_body
    parse_entries parse_entry parse_env_secrets parse_env_vars parse_kind parse_vars all_identifier
    ends_with has_prefix_of is_alnum is_alpha is_credential is_denied_env_name is_identifier
    is_proxy require_manifest_env_name to_upper parse_backend parse_location located scalar_at
    unknown_keys refuse_other scoped_key require_segment insert has_byte starts_with lit text_eq
    is_empty parse_manifest find to_list as_text is_mapping is_a_scalar child children
parsed = refl

parse_manifest-IsValid_example : IsValid read
parse_manifest-IsValid_example = parse_manifest-IsValid trees (lit "any") (lit "m") parsed
