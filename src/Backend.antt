-- ===== src/Backend.antt =====
-- The local backend and the errors it reports (src/backend.cpp, src/backend.hpp).
pub mod Grouped
pub mod Single
pub mod Stored
pub mod Outcome
use secretov.Prelude.{
  ℕ, suc, Option, none, some, Bool, true, false, not, ◌||◌, ◌&&◌, List, [], ◌∷◌, ◌++◌, ltb,
  if◌then◌else◌, take, length,
}
use secretov.Prelude.Map.{Map, lookup, insert, emplace}
use secretov.Prelude.Result.{Result, ok, err, ◌>>=◌}
use secretov.Prelude.Sorting.{mem_text}
use secretov.Prelude.Text.{Text, lit, text_eq, is_empty, rfind_byte}
use secretov.Manifest.Cloud.{BackendType, local, aws, gcp}
use secretov.Protocol.{not_found, invalid_token}

-- DaemonUnreachable::Stage
pub data Stage : Type 0 where
  not_running not_sent sent : Stage

-- What DaemonClient::request throws: DaemonUnreachable, another runtime_error, anything else.
pub data Failure : Type 0 where
  unanswered : Text → Stage → Bool → ℕ → Failure
  runtime other_failure : Text → Failure

-- DaemonClient::request, and the two members of a nlohmann::json reply that are read: "value",
-- where none is no string, and the items of "values".
pub record Client : Type 1 where
  pub Reply : Type 0
  pub request : Text → Text → Option Text → Result Failure Reply
  pub value : Reply → Option Text
  pub values : Reply → List (Text × Option Text)

-- missing: Kind::NotFound
pub data Kind : Type 0 where
  missing denied no_credentials unreachable pending_deletion : Kind

pub record BackendError : Type 0 where
  pub kind : Kind
  pub what : Text
  pub maybe_applied : Bool
  pub pending_until : Text
  pub timed_out : Bool
  pub timeout_seconds : ℕ
  pub not_running : Bool

-- A BackendError, or an exception of another type with its text.
pub data Thrown : Type 0 where
  backend_error : BackendError → Thrown
  exception : Text → Thrown

abbrev pub plain_error : Kind → Text → BackendError
plain_error kind what = record {
  kind = kind;
  what = what;
  maybe_applied = false;
  pending_until = [];
  timed_out = false;
  timeout_seconds = 0;
  not_running = false;
}

unfoldable pub is_sent : Stage → Bool
is_sent sent = true
is_sent _ = false

unfoldable pub is_not_running : Stage → Bool
is_not_running not_running = true
is_not_running _ = false

unfoldable pub as_backend_error : Failure → Thrown
as_backend_error (unanswered what stage timed_out timeout_seconds) =
    backend_error (record (plain_error unreachable what) {
      maybe_applied = is_sent stage;
      timed_out = timed_out;
      timeout_seconds = timeout_seconds;
      not_running = is_not_running stage;
    })
as_backend_error (runtime what) =
    if text_eq what not_found
    then backend_error (plain_error missing what)
    else if text_eq what invalid_token
    then backend_error (plain_error no_credentials what)
    else exception what
as_backend_error (other_failure what) = exception what

unfoldable pub take_string : Option Text → Result Thrown Text
take_string none = err (exception (lit "daemon reply has no value"))
take_string (some value) = ok value

pub record Fetched : Type 0 where
  pub values : Map Text
  pub failures : Map BackendError

-- The path up to and with its last slash; "" without one.
unfoldable pub prefix_of : Text → Text
prefix_of path = elim (rfind_byte b'/' path) [ none ↦ [] | some slash ↦ take (suc slash) path ]

unfoldable pub group_or_empty : Option (List Text) → List Text
group_or_empty none = []
group_or_empty (some group) = group

unfoldable pub add_to_group : List Text → Text → List Text
add_to_group group path = if mem_text path group then group else group ++ (path ∷ [])

unfoldable pub add_path : Map (List Text) → Text → Map (List Text)
add_path by_prefix path =
    let prefix = prefix_of path in
    insert prefix (add_to_group (group_or_empty (lookup prefix by_prefix)) path) by_prefix

unfoldable pub group_from : Map (List Text) → List Text → Map (List Text)
group_from by_prefix [] = by_prefix
group_from by_prefix (path ∷ paths) = group_from (add_path by_prefix path) paths

unfoldable pub is_batched : Text → List Text → Bool
is_batched prefix group = not (is_empty prefix) && ltb 1 (length group)

unfoldable pub put_failure : Kind → Fetched → Text → BackendError → Result Thrown Fetched
put_failure missing fetched path e =
    ok (record fetched { failures = emplace path e fetched.failures })
put_failure _ fetched path e = err (backend_error e)

-- The end of the try block around one path.
unfoldable pub put_fetched : Fetched → Text → Result Thrown Text → Result Thrown Fetched
put_fetched fetched path (ok value) =
    ok (record fetched { values = emplace path value fetched.values })
put_fetched fetched path (err (exception what)) = err (exception what)
put_fetched fetched path (err (backend_error e)) = put_failure e.kind fetched path e

unfoldable pub find_in_scope : Map Text → Text → Result Thrown Text
find_in_scope scope path = elim (lookup path scope) [
  | some value ↦ ok value
  | none ↦ err (backend_error (plain_error missing not_found))
]

unfoldable pub fetch_group :
    (Text → Result Thrown Text) → List Text → Fetched → Result Thrown Fetched
fetch_group fetch_path [] fetched = ok fetched
fetch_group fetch_path (path ∷ group) fetched = do
  later ← put_fetched fetched path (fetch_path path)
  fetch_group fetch_path group later

unfoldable pub scope_from : List (Text × Option Text) → Map Text → Result Thrown (Map Text)
scope_from [] scope = ok scope
scope_from ((key, holder) ∷ items) scope = do
  value ← take_string holder
  scope_from items (emplace key value scope)

module _ (client : Client) where
  unfoldable pub local_request : Text → Text → Option Text → Result Thrown client.Reply
  local_request op key value = elim (client.request op key value) [
    | ok reply ↦ ok reply
    | err failure ↦ err (as_backend_error failure)
  ]

  unfoldable pub fetch_one : Text → Result Thrown Text
  fetch_one path = do resp ← local_request (lit "get") path none; take_string (client.value resp)

  unfoldable pub fetch_scope : Text → Result Thrown (Map Text)
  fetch_scope prefix = do
    resp ← local_request (lit "getprefix") prefix none
    scope_from (client.values resp) []

  unfoldable pub fetch_grouped : Bool → Text → List Text → Fetched → Result Thrown Fetched
  fetch_grouped false prefix group fetched = fetch_group fetch_one group fetched
  fetch_grouped true prefix group fetched = do
    scope ← fetch_scope prefix
    fetch_group (find_in_scope scope) group fetched

  unfoldable pub fetch_groups : Map (List Text) → Fetched → Result Thrown Fetched
  fetch_groups [] fetched = ok fetched
  fetch_groups ((prefix, group) ∷ groups) fetched = do
    later ← fetch_grouped (is_batched prefix group) prefix group fetched
    fetch_groups groups later

  unfoldable pub get_many : List Text → Result Thrown Fetched
  get_many paths = fetch_groups (group_from [] paths) (record { values = []; failures = [] })

  -- LocalBackend::set and LocalBackend::remove; a delete has no date.
  unfoldable pub set_value : Text → Text → Result Thrown (Unit {0})
  set_value path value = do _ ← local_request (lit "set") path (some value); ok tt

  unfoldable pub remove_value : Text → Result Thrown (Option Text)
  remove_value path = do _ ← local_request (lit "delete") path none; ok none

unfoldable pub restore : Text → Result Thrown (Unit {0})
restore path = err (exception (lit "this backend cannot restore secrets"))

-- open_backend: what the DaemonClient constructor gives or throws comes in.
unfoldable pub open_backend : BackendType → Result Text Client → Result Thrown Client
open_backend local (ok client) = ok client
open_backend local (err what) = err (backend_error (plain_error no_credentials what))
open_backend aws client =
    err (exception (lit "backend 'aws' not compiled in (rebuild with -DSECRETOV_BACKEND_AWS=ON)"))
open_backend gcp client =
    err (exception (lit "backend 'gcp' not compiled in (rebuild with -DSECRETOV_BACKEND_GCP=ON)"))
