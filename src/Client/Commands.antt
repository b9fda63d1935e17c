-- ===== src/Client/Commands.antt =====
-- The commands get, set, list, delete, rotate and passwd (src/client.cpp). What resolves a target,
-- and the daemon client or what its constructor throws, come in.
pub mod Printed
use secretov.Prelude.{
  ℕ, Option, none, some, Bool, true, false, not, ◌||◌, List, [], ◌∷◌, ◌++◌, is_some, map,
  if◌then◌else◌,
}
use secretov.Prelude.Map.{Map, lookup, insert}
use secretov.Prelude.Result.{Result, ok, err, ◌>>=◌}
use secretov.Prelude.Text.{Text, lit, is_empty, text_eq, starts_with}
use secretov.Backend.{
  BackendError, Thrown, backend_error, exception, Client, Fetched, get_many, set_value,
  remove_value, open_backend, Failure,
}
use secretov.Client.Plan.{ScopeArgs, is_local, entries_for}
use secretov.Client.Requests.{Exchange, Sent, request_raw}
use secretov.Client.Resolve.{
  Entry, named, usage, refused, any_argument, parse_entry_args, Target, ResolvedScope, Next,
  project_of, env_of, scope_flag,
}
use secretov.Daemon.Startup.{rstrip}
use secretov.Input.{Input, read_secret_line, read_stdin_value}
use secretov.Manifest.Parse.{EntryKind, kv, SecretEntry, Manifest}
use secretov.Manifest.Scopes.{scope_prefix}
use secretov.Platform.{Json}

-- What a command prints to stdout, and its status; an exception is left to main.
pub record Exit : Type 0 where
  pub stdout : List Text
  pub status : ℕ

abbrev pub done : List Text → Exit
done lines = record { stdout = lines; status = 0 }

-- A bad command line: what is told goes to stderr.
abbrev pub bad_usage : Exit
bad_usage = record { stdout = []; status = 2 }

abbrev pub as_exception {ℓ} : {A : Type ℓ} → Result Text A → Result Thrown A
as_exception (ok v) = ok v
as_exception (err what) = err (exception what)

abbrev pub no_scope : ScopeArgs
no_scope = record { project = none; env = none }

-- The constructor of DaemonClient, for what reading the token file gives.
unfoldable pub client_token : Text → Result Text Text → Result Text Text
client_token path (err what) = err what
client_token path (ok contents) =
    if is_empty (rstrip contents)
    then err (lit "token file '" ++ (path ++ lit "' is empty"))
    else ok (rstrip contents)

unfoldable pub print_value : Text → Fetched → Result Thrown Exit
print_value path fetched = elim fetched.failures [
  | (other, e) ∷ rest ↦ err (backend_error e)
  | [] ↦ elim (lookup path fetched.values) [
    | none ↦ err (exception (lit "map::at"))
    | some value ↦ ok (done (value ∷ []))
  ]
]

-- A value that is typed may not be empty; one that is piped may.
unfoldable pub value_to_set : Input → Text → Result Text Text
value_to_set input piped =
    if not input.on_tty
    then ok (read_stdin_value piped)
    else (read_secret_line input >>= λ value.
        if is_empty value
        then err
            (lit "empty value on the terminal; nothing stored (pipe an empty value if you mean it)")
        else ok value)

module _ (client : Result Text Client) where
  unfoldable pub get_target : Target → Result Thrown Exit
  get_target target = do
    backend ← open_backend target.backend client
    fetched ← get_many backend (target.path ∷ [])
    print_value target.path fetched

  unfoldable pub set_target : Input → Text → Target → Result Thrown Exit
  set_target input piped target = do
    backend ← open_backend target.backend client
    value ← as_exception (value_to_set input piped)
    _ ← set_value backend target.path value
    ok (done [])

  unfoldable pub delete_target : Target → Result Thrown Exit
  delete_target target = do
    backend ← open_backend target.backend client
    _ ← remove_value backend target.path
    ok (done [])

module _ (resolve : ScopeArgs → Text → Result Text Target) where
  -- The parse of the arguments, the target, and what is done with it.
  unfoldable pub on_target : Bool → List Text → (Target → Result Thrown Exit) → Result Thrown Exit
  on_target raw_key args act =
      elim (parse_entry_args raw_key any_argument args false none no_scope) [
        | usage ↦ ok bad_usage
        | refused what ↦ ok bad_usage
        | named name scope ↦ do target ← as_exception (resolve scope name); act target
      ]

  unfoldable pub cmd_get : Result Text Client → List Text → Result Thrown Exit
  cmd_get client args = on_target true args (get_target client)

  unfoldable pub cmd_set : Result Text Client → List Text → Input → Text → Result Thrown Exit
  cmd_set client args input piped = on_target false args (set_target client input piped)

  unfoldable pub cmd_delete : Result Text Client → List Text → Result Thrown Exit
  cmd_delete client args = on_target true args (delete_target client)

-- Only -p and -e are arguments of list.
unfoldable pub parse_list_args : Next → List Text → ScopeArgs → Result (Option Text) ScopeArgs
parse_list_args any_argument [] scope = ok scope
parse_list_args (project_of flag) [] scope = err (some (flag ++ lit " requires a value"))
parse_list_args (env_of flag) [] scope = err (some (flag ++ lit " requires a value"))
parse_list_args (project_of flag) (arg ∷ rest) scope =
    parse_list_args any_argument rest (record { project = some arg; env = scope.env })
parse_list_args (env_of flag) (arg ∷ rest) scope =
    parse_list_args any_argument rest (record { project = scope.project; env = some arg })
parse_list_args any_argument (arg ∷ rest) scope = elim (scope_flag false arg) [
  | none ↦ err none
  | some next ↦ parse_list_args next rest scope
]

unfoldable pub with_prefix : Text → List Text → List Text
with_prefix prefix [] = []
with_prefix prefix (key ∷ keys) =
    let rest = with_prefix prefix keys in if starts_with prefix key then key ∷ rest else rest

-- What a scope lists: the entries of a cloud manifest, or the store's keys with a prefix.
pub data Listing : Type 0 where
  declared : List SecretEntry → Listing
  keys_with : Text → Listing

unfoldable pub listing_of : ResolvedScope → Result Text Listing
listing_of resolved = elim resolved.manifest [
  | none ↦ do prefix ← scope_prefix resolved.env resolved.project; ok (keys_with prefix)
  | some m ↦
      if not (is_local m.backend.type)
      then (entries_for m resolved.env >>= λ entries. ok (declared entries))
      else (scope_prefix resolved.env resolved.project >>= λ prefix. ok (keys_with prefix))
]

unfoldable pub scope_listing :
    (ScopeArgs → Result Text ResolvedScope) → ScopeArgs → Result Text Listing
scope_listing resolve scope =
    if is_some scope.project || is_some scope.env
    then (resolve scope >>= listing_of)
    else ok (keys_with [])

unfoldable pub kind_name : EntryKind → Text
kind_name kv = lit "kv"
kind_name _ = lit "text"

unfoldable pub entry_line : SecretEntry → Text
entry_line e =
    e.name ++ (lit "\t" ++ (kind_name e.kind ++ (lit "\t" ++ (e.path ++ (lit "\t" ++ e.field)))))

-- `listed`: the keys of the daemon's reply to list, or what the request throws.
unfoldable pub print_listing : Result Text (List Text) → Listing → Result Text Exit
print_listing listed (declared entries) = ok (done (map entry_line entries))
print_listing listed (keys_with prefix) = do keys ← listed; ok (done (with_prefix prefix keys))

unfoldable pub cmd_list :
    (ScopeArgs → Result Text ResolvedScope) → Result Text (List Text) → List Text → Result Text Exit
cmd_list resolve listed args = elim (parse_list_args any_argument args no_scope) [
  | err none ↦ ok bad_usage
  | err (some what) ↦ err what
  | ok scope ↦ do listing ← scope_listing resolve scope; print_listing listed listing
]

-- The requests of rotate and passwd.
module _ (json : Json) where
  unfoldable pub rotate_request : Text → Map json.Value
  rotate_request pass =
      insert (lit "old") (json.string pass) (insert (lit "op") (json.string (lit "rotate")) [])

  unfoldable pub passwd_request : Text → Text → Map json.Value
  passwd_request old_pass new_pass = insert (lit "new") (json.string new_pass) (
      insert (lit "old") (json.string old_pass) (insert (lit "op") (json.string (lit "passwd")) []))

  unfoldable pub printed_reply : Text → Sent json.Value → Result Failure Exit
  printed_reply line sent = elim sent.result [ err e ↦ err e | ok resp ↦ ok (done (line ∷ [])) ]

  unfoldable pub cmd_rotate : Text → Text → Text → ℕ → Exchange → Result Failure Exit
  cmd_rotate socket_path token pass my_uid exchange =
      printed_reply (lit "rotated encryption key")
        (request_raw json socket_path token (lit "rotate") (rotate_request pass) my_uid exchange)

  unfoldable pub cmd_passwd : Text → Text → Text → Text → ℕ → Exchange → Result Failure Exit
  cmd_passwd socket_path token old_pass new_pass my_uid exchange =
      printed_reply (lit "passphrase changed") (
        request_raw json socket_path token (lit "passwd") (passwd_request old_pass new_pass) my_uid
          exchange)
