-- ===== src/Tests/Edit.antt =====
-- An entry is added to a manifest that has a comment.
use secretov.Prelude.{◌≡◌, refl, List, [], ◌∷◌}
use secretov.Prelude.Result.{ok}
use secretov.Prelude.Text.{Text, lit, text_eq, find_byte, has_byte, starts_with, is_empty}
use secretov.Manifest.Cloud.{front_is}
use secretov.Manifest.Document.{
  parse_manifest, is_set, parse_all_envs, parse_default, parse_env, parse_envs, refuse_twice,
  value_or, unfault, parse_document,
}
use secretov.Manifest.Document.Valid.{IsValid}
use secretov.Manifest.Parse.{
  KeyValues, Manifest, parse_backend, parse_location, located, scalar_at, unknown_keys,
  refuse_other,
}
use secretov.Manifest.Entries.{
  finish_entry, local_entry, local_path, optional_scalar, parse_body, parse_entries, parse_entry,
  parse_env_secrets, parse_env_vars, parse_kind, parse_vars,
}
use secretov.Manifest.EnvNames.{
  all_identifier, ends_with, has_prefix_of, is_alnum, is_alpha, is_credential, is_denied_env_name,
  is_identifier, is_proxy, require_manifest_env_name, to_upper,
}
use secretov.Manifest.Scopes.{scoped_key, require_segment}
use secretov.Prelude.Map.{insert, lookup}
use secretov.Tests.Document.{
  trees, find, to_list, as_text, is_mapping, is_a_scalar, child, children,
}
use secretov.Manifest.Lines.{split_lines, join_lines, onto_first, indent_of, blank_or_comment}
use secretov.Manifest.Blocks.{
  end_from, block_end, first_indent, child_indent, names_key, child_from, find_child, is_content,
  point_from, insert_point, insert_lines, indent_or, block_at, ensure_key, ensure_block,
}
use secretov.Manifest.Edit.{
  check_names, first_step, value_indent_from, added_entries, edited_lines, entry_named, check_entry,
  check_entries, check_edit, manifest_with_entries,
}
use secretov.Manifest.Edit.Kept.{IsKept, manifest_with_entries-IsKept}
use secretov.Manifest.Edit.Carried.{Carries, manifest_with_entries-Carries}

abbrev old_text : Text
old_text = lit "name: app\nenv:\n  dev:\n    # plain\n    vars:\n      MODE: fast\n"

abbrev new_text : Text
new_text =
    lit
      "name: app\nenv:\n  dev:\n    # plain\n    vars:\n      MODE: fast\n    secrets:\n      db:\n        env_var_name: DB_URL\n"

abbrev wanted : KeyValues
wanted = (lit "db", lit "DB_URL") ∷ []

edited : manifest_with_entries trees old_text (lit "app") (lit "dev") wanted ≡ ok new_text
unfolding find_byte is_set parse_all_envs parse_default parse_env parse_envs refuse_twice value_or
    unfault parse_document finish_entry local_entry local_path optional_scalar parse_body
    parse_entries parse_entry parse_env_secrets parse_env_vars parse_kind parse_vars all_identifier
    ends_with has_prefix_of is_alnum is_alpha is_credential is_denied_env_name is_identifier
    is_proxy require_manifest_env_name to_upper parse_backend parse_location located scalar_at
    unknown_keys refuse_other scoped_key require_segment insert has_byte starts_with lit text_eq
    is_empty parse_manifest find to_list as_text is_mapping is_a_scalar child children lookup
    split_lines join_lines onto_first indent_of blank_or_comment front_is end_from block_end
    first_indent child_indent names_key child_from find_child is_content point_from insert_point
    insert_lines indent_or block_at ensure_key ensure_block check_names first_step value_indent_from
    added_entries edited_lines entry_named check_entry check_entries check_edit
    manifest_with_entries
edited = refl

manifest_with_entries-IsKept_example :
    (lines : List Text) × (new_text ≡ join_lines lines) × IsKept (split_lines old_text) lines
manifest_with_entries-IsKept_example =
    manifest_with_entries-IsKept trees old_text (lit "app") (lit "dev") wanted edited

manifest_with_entries-Carries_example :
    (m : Manifest) × (parse_manifest trees new_text (lit "<edited manifest>") ≡ ok m)
    × IsValid m
    × Carries m (lit "app") (lit "dev") wanted
manifest_with_entries-Carries_example =
    manifest_with_entries-Carries trees old_text (lit "app") (lit "dev") wanted edited
