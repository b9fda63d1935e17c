-- ===== src/Tests/Backend.antt =====
-- A batch that is read from a small store: two paths of one prefix, and one that is not stored.
use secretov.Prelude.{◌≡◌, refl, List, [], ◌∷◌}
use secretov.Prelude.Map.{lookup, insert, emplace}
use secretov.Prelude.Result.{ok}
use secretov.Prelude.Text.{Text, lit, text_eq, text_lt, starts_with, rfind_byte, is_empty}
use secretov.Backend.{
  Fetched, missing, plain_error, as_backend_error, take_string, prefix_of, group_or_empty,
  add_to_group, add_path, group_from, is_batched, put_failure, put_fetched, find_in_scope,
  fetch_group, scope_from, local_request, fetch_one, fetch_scope, fetch_grouped, fetch_groups,
  get_many,
}
use secretov.Backend.Outcome.{IsOutcome, get_many-IsOutcome}
use secretov.Backend.Stored.{
  stored_client, stored_client-IsConsistent, stored_request, found, found_scope, reply_value,
  reply_values,
}
use secretov.Protocol.{not_found}
use secretov.Store.{get, get_prefix}
use secretov.Tests.Platform.{small}
use secretov.Tests.Stores.{held}

abbrev paths : List Text
paths = lit "dev/api/KEY" ∷ lit "dev/api/GONE" ∷ lit "loose" ∷ []

abbrev fetched : Fetched
fetched = record {
  values = (lit "dev/api/KEY", lit "s3cret") ∷ [];
  failures =
      (lit "dev/api/GONE", plain_error missing not_found)
      ∷ (lit "loose", plain_error missing not_found)
      ∷ [];
}

batch : get_many (stored_client small held) paths ≡ ok fetched
unfolding get_many lookup insert emplace lit text_eq text_lt starts_with rfind_byte is_empty
    as_backend_error take_string prefix_of group_or_empty add_to_group add_path group_from
    is_batched put_failure put_fetched find_in_scope fetch_group scope_from local_request fetch_one
    fetch_scope fetch_grouped fetch_groups stored_request found found_scope reply_value reply_values
    not_found get get_prefix
batch = refl

get_many-IsOutcome_example :
    IsOutcome (stored_client small held) paths (get_many (stored_client small held) paths)
get_many-IsOutcome_example =
    get_many-IsOutcome (stored_client small held) (stored_client-IsConsistent small held) paths
