-- ===== src/Tests/Manifest.antt =====
-- The theorems on manifests at a machine with one shared and one private group.
use secretov.Prelude.{
  map, ◌⊎◌, ◌≡◌, refl, ◌==◌, false, none, some, List, [], ◌∷◌, arith, if◌then◌else◌,
}
use secretov.Prelude.Result.{ok}
use secretov.Prelude.Text.{find_byte, has_byte, is_empty, lit, starts_with, text_eq}
use secretov.Manifest.EnvNames.{
  is_alpha, is_alnum, to_upper, all_identifier, is_identifier, ends_with, has_prefix_of,
  is_credential, is_proxy, is_denied_env_name, require_manifest_env_name,
}
use secretov.Manifest.EnvNames.Accepted.{require_manifest_env_name_lem}
use secretov.Manifest.EnvNames.Documented.{IsCredential, IsHarmless}
use secretov.Manifest.Scopes.{require_segment, scoped_key, scope_prefix}
use secretov.Manifest.Scopes.Isolated.{get_prefix-scope_prefix}
use secretov.Store.{get}
use secretov.Prelude.Map.{lookup}
use secretov.Tests.Platform.{small}
use secretov.Tests.Stores.{held, scope_values}
use secretov.Manifest.Group.{
  GroupEntry, AccountEntry, collect_group_members, ours_alone, add_groups, add_name, add_listed,
  add_accounts,
}
use secretov.Manifest.Trust.{
  absent, Accounts, Stat, require_trusted, other_group_members, shared_group_problem, acl_problem,
}
use secretov.Manifest.Trust.Trusted.{IsLookup}

key_made : scoped_key (lit "dev") (lit "api") (lit "KEY") ≡ ok (lit "dev/api/KEY")
unfolding scoped_key require_segment is_empty find_byte lit
key_made = refl

prefix_made : scope_prefix (lit "dev") (lit "api") ≡ ok (lit "dev/api/")
unfolding scope_prefix require_segment is_empty find_byte lit
prefix_made = refl

abbrev own : GroupEntry
own = record { name = 117 ∷ []; gid = 1000; members = (117 ∷ []) ∷ [] }

abbrev others : List GroupEntry
others = own ∷ record { name = 103 ∷ []; gid = 50; members = (118 ∷ []) ∷ [] } ∷ []

abbrev accounts : List AccountEntry
accounts =
    record { name = 117 ∷ []; uid = 1000; gid = 1000 }
    ∷ record { name = 118 ∷ []; uid = 1001; gid = 1001 }
    ∷ []

abbrev pub machine : Accounts
machine = record {
  my_uid = 1000;
  my_entry = some (record { name = 117 ∷ []; gid = 1000 });
  group_of = λ gid. if gid == 1000 then some own else none;
  groups = others;
  group_scan_error = none;
  accounts = accounts;
  account_scan_error = none;
  acl = λ path. absent;
}

pub machine-IsLookup : IsLookup machine
machine-IsLookup gid entry h = ground arith

-- mode 0664
abbrev manifest : Stat
manifest = record { uid = 1000; gid = 1000; mode = 436 }

manifest_passes :
    require_trusted machine (lit "secretov.yaml") manifest (lit "manifest") false ≡ ok tt
unfolding require_trusted shared_group_problem other_group_members acl_problem ours_alone
    collect_group_members add_groups add_name add_listed add_accounts text_eq
manifest_passes = refl

token_passes : require_manifest_env_name (lit "api_key") (lit "secretov.yaml") (lit "var") ≡ ok tt
unfolding require_manifest_env_name is_identifier all_identifier is_alnum is_alpha
    is_denied_env_name is_credential is_proxy has_prefix_of to_upper ends_with text_eq starts_with
    lit
token_passes = refl

require_manifest_env_name_lem_example :
    (has_byte b'=' (lit "api_key") ≡ false)
    × (has_byte b'/' (lit "api_key") ≡ false)
    × (IsCredential (map to_upper (lit "api_key")) ⊎ IsHarmless (map to_upper (lit "api_key")))
require_manifest_env_name_lem_example =
    require_manifest_env_name_lem (lit "api_key") (lit "secretov.yaml") (lit "var") token_passes

get_prefix-scope_prefix_example :
    ((lit "dev" ≡ lit "dev")
      × (lit "api" ≡ lit "api")
      × (get small held (lit "dev/api/KEY")
          ≡ ok (lookup (lit "dev/api/KEY") ((lit "dev/api/KEY", lit "s3cret") ∷ []))))
    ⊎ (¬ ((lit "dev" ≡ lit "dev") × (lit "api" ≡ lit "api"))
        × (lookup (lit "dev/api/KEY") ((lit "dev/api/KEY", lit "s3cret") ∷ []) ≡ none))
get_prefix-scope_prefix_example =
    get_prefix-scope_prefix small held (lit "dev") (lit "api") (lit "dev") (lit "api") (lit "KEY")
      (lit "dev/api/") (lit "dev/api/KEY") ((lit "dev/api/KEY", lit "s3cret") ∷ []) prefix_made
      key_made scope_values
