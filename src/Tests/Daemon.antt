-- ===== src/Tests/Daemon.antt =====
-- The daemon's theorems at a store that holds one secret.
use secretov.Prelude.{◌≡◌, refl, some, true, false, [], ◌∷◌, arith, if◌then◌else◌}
use secretov.Prelude.Text.{Text, lit, text_eq, is_empty}
use secretov.Prelude.Map.{lookup}
use secretov.Prelude.Result.{ok}
use secretov.Io.{World}
use secretov.Protocol.{Request, parse_request}
use secretov.Store.{Store, open_store}
use secretov.Store.Session.{Session}
use secretov.Daemon.{token_matches, dispatch, Arrival, serve_lines, serve_connection}
use secretov.Daemon.Auth.{AllDenied}
use secretov.Daemon.Sound.{change_of, apply, dispatch-change}
use secretov.Daemon.Startup.{start, auto_rotate, read_token, IsCurrent, start-IsCurrent}
use secretov.Tests.Json.{framed}
use secretov.Tests.Platform.{small}
use secretov.Tests.Stores.{store_path, held, world}

-- {"token": <its argument>, "op": "delete", "key": "dev/api/KEY"}
abbrev deletion : Text → Text
deletion token = framed (lit "token") (
    framed token (
      framed (lit "op")
        (framed (lit "delete") (framed (lit "key") (framed (lit "dev/api/KEY") [])))))

abbrev pub arriving : Text → Arrival small
arriving token = record { line = deletion token; now = 9; writable = true }

guess_parses :
    parse_request small.json (deletion (1 ∷ []))
    ≡ some (record {
      token = 1 ∷ [];
      op = lit "delete";
      key = lit "dev/api/KEY";
      value = [];
      old_pass = [];
      new_pass = [];
    })
unfolding parse_request lit lookup text_eq
guess_parses = refl

pub guess-AllDenied : AllDenied small (2 ∷ []) (arriving (1 ∷ []) ∷ [])
guess-AllDenied = rw guess_parses (ground arith, tt)

abbrev session : Session small
session = record { store = held; world = world; passphrase = lit "pass" }

abbrev deleting : Request
deleting = record {
  token = 2 ∷ [];
  op = lit "delete";
  key = lit "dev/api/KEY";
  value = [];
  old_pass = [];
  new_pass = [];
}

dispatch-change_example :
    ((dispatch small held deleting 9 world).store
      ≡ (apply small session (change_of deleting 9)).store)
    × ((dispatch small held deleting 9 world).world
        ≡ (apply small session (change_of deleting 9)).world)
dispatch-change_example = dispatch-change small session deleting 9

abbrev token_path : Text
token_path = lit "/home/u/token"

abbrev with_token : World
with_token = record world {
  disk = λ q. if text_eq token_path q then some (116 ∷ 107 ∷ 10 ∷ []) else world.disk q;
}

start_runs :
    (start small store_path token_path (lit "/run/s.sock") false (lit "pass") 9 with_token).0
    ≡ ok (held, 116 ∷ 107 ∷ [])
unfolding start open_store auto_rotate read_token secretov.Keys.ensure_sodium
    secretov.Files.read_file_string text_eq lit secretov.Header.has_magic secretov.Header.file_bytes
    secretov.Header.put_u64_le secretov.Header.version_of secretov.Store.open_v2
    secretov.Header.read_common_header secretov.Header.check_kdf_params secretov.Header.get_u64_le
    secretov.Keys.unwrap secretov.Keys.alloc_guarded secretov.Keys.derive_kdf_key
    secretov.Keys.derived secretov.Header.read_wrapping secretov.Daemon.Startup.needs_rotation
    secretov.Daemon.Startup.rstrip secretov.Header.magic secretov.Header.or_bytes
    secretov.Keys.decrypt_payload is_empty
start_runs = refl

start-IsCurrent_example :
    (false ≡ false)
    × IsCurrent small 9 held.env.key_created_at
    × (is_empty (116 ∷ 107 ∷ []) ≡ false)
start-IsCurrent_example =
    start-IsCurrent small store_path token_path (lit "/run/s.sock") false (lit "pass") 9 with_token
      held (116 ∷ 107 ∷ []) start_runs
