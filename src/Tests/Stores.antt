-- ===== src/Tests/Stores.antt =====
-- The store at work, and its theorems at a store that holds one secret.
use secretov.Prelude.{
  ◌≡◌, refl, none, some, true, false, List, [], ◌∷◌, ◌++◌, arith, is_some, if◌then◌else◌,
}
use secretov.Prelude.Text.{Text, lit, text_eq, text_eq_refl, rfind_byte, starts_with}
use secretov.Prelude.Map.{Map, lookup, insert, erase}
use secretov.Prelude.Result.{ok, err}
use secretov.Io.{World, is_ok}
use secretov.Files.{write_file_atomic}
use secretov.Files.Atomic.{IsAtomic, write_file_atomic-IsAtomic}
use secretov.Header.{Envelope, IsEnvelope, magic, file_bytes}
use secretov.Keys.{
  ensure_sodium, mint_fresh_envelope, random, derive_kdf_key, alloc_guarded, derived, mint_data_key,
  persist,
}
use secretov.Keys.Unlocking.{IsUnlockedBy}
use secretov.Store.{
  Store, create, open_store, get, set, remove, get_prefix, rotate, change_passphrase,
}
use secretov.Store.Changes.{AllOrNothing, set-AllOrNothing, remove-AllOrNothing}
use secretov.Store.Contents.{get-set}
use secretov.Store.Create.{MakesStore, create-MakesStore}
use secretov.Store.Reopen.{IsStored, open_store-stored}
use secretov.Store.Rekey.{RekeyOutcome, rotate-outcome, change_passphrase-outcome}
use secretov.Store.Session.{
  Change, set_key, remove_key, rotate_key, new_passphrase, Session, run_session,
  run_session-reopens,
}
use secretov.Tests.Json.{Value, string, framed, small_json-laws}
use secretov.Tests.Platform.{small, small_sodium-laws}

abbrev pub store_path : Text
store_path = lit "/home/u/store"

abbrev blank : World
blank = record { disk = λ path. none; calls = 0; stderr = [] }

create_runs : is_ok (create small store_path (lit "pass") 7 blank).0 ≡ true
unfolding create ensure_sodium mint_fresh_envelope random derive_kdf_key alloc_guarded derived
    mint_data_key persist write_file_atomic rfind_byte file_bytes magic lit
create_runs = refl

abbrev pub one_secret : Map Value
one_secret = (lit "dev/api/KEY", string (lit "s3cret")) ∷ []

abbrev pub env : Envelope
env = record {
  salt = 1 ∷ 2 ∷ [];
  opslimit = 3;
  memlimit = 16;
  key_created_at = 7;
  wrap_nonce = 5 ∷ 6 ∷ [];
  wrapped_key = small.sodium.secretbox (9 ∷ 8 ∷ 7 ∷ []) (5 ∷ 6 ∷ []) (lit "pass" ++ 1 ∷ 2 ∷ []);
}

abbrev pub held : Store small
held = record { path = store_path; members = one_secret; key = 9 ∷ 8 ∷ 7 ∷ []; env = env }

abbrev plaintext : Text
plaintext = framed (lit "dev/api/KEY") (framed (lit "s3cret") [])

abbrev file : Text
file = file_bytes env (3 ∷ 4 ∷ []) (small.sodium.secretbox plaintext (3 ∷ 4 ∷ []) held.key)

abbrev pub world : World
world = record {
  disk = λ q. if text_eq store_path q then some file else none;
  calls = 1;
  stderr = [];
}

env-IsEnvelope : IsEnvelope small.sodium env
env-IsEnvelope = omega arith

pub held-IsStored : IsStored small held world.disk
unfolding lit
held-IsStored = record {
  fits = env-IsEnvelope;
  written = record {
    nonce = 3 ∷ 4 ∷ [];
    plaintext = plaintext;
    dumped = refl;
    nonce_size = refl;
    on_disk = rw (text_eq_refl store_path);
  };
}

pub held-IsUnlockedBy : IsUnlockedBy small (lit "pass") env held.key
held-IsUnlockedBy = record {
  wrap_key = lit "pass" ++ 1 ∷ 2 ∷ [];
  derives = refl;
  unwraps = small_sodium-laws.open-secretbox held.key (5 ∷ 6 ∷ []) (lit "pass" ++ 1 ∷ 2 ∷ []);
}

write_file_atomic-IsAtomic_example :
    IsAtomic store_path file blank.disk
      (write_file_atomic small store_path file blank).1.disk
      (is_ok (write_file_atomic small store_path file blank).0)
write_file_atomic-IsAtomic_example = write_file_atomic-IsAtomic small store_path file blank

open_store-stored_example :
    open_store small store_path (lit "pass") world ≡ (ok held, record world { calls = 3 })
open_store-stored_example =
    open_store-stored small small_sodium-laws small_json-laws (λ n. refl) world held-IsStored
      held-IsUnlockedBy refl

create-MakesStore_example :
    MakesStore small store_path (lit "pass") 7 blank (create small store_path (lit "pass") 7 blank)
    × (is_some (blank.disk store_path) ≡ true
        → is_ok (create small store_path (lit "pass") 7 blank).0 ≡ false)
create-MakesStore_example =
    create-MakesStore small small_sodium-laws store_path (lit "pass") 7 blank (omega arith)

set-AllOrNothing_example :
    AllOrNothing small held world
      (record held { members = insert (lit "k") (string (lit "v")) one_secret })
      tt
      (set small held (lit "k") (lit "v") world)
    × IsStored small
        (set small held (lit "k") (lit "v") world).store
        (set small held (lit "k") (lit "v") world).world.disk
set-AllOrNothing_example = set-AllOrNothing small held (lit "k") world (lit "v") held-IsStored

remove-AllOrNothing_example :
    (is_some (lookup (lit "k") one_secret) ≡ false
      → remove small held (lit "k") world
        ≡ record { result = ok false; store = held; world = world })
    × (is_some (lookup (lit "k") one_secret) ≡ true
        → AllOrNothing small held world
            (record held { members = erase (lit "k") one_secret })
            true
            (remove small held (lit "k") world))
    × IsStored small
        (remove small held (lit "k") world).store
        (remove small held (lit "k") world).world.disk
remove-AllOrNothing_example = remove-AllOrNothing small held (lit "k") world held-IsStored

rotate-outcome_example :
    RekeyOutcome small
      (lit "pass")
      (lit "pass")
      9
      held
      world
      (rotate small held (lit "pass") 9 world)
rotate-outcome_example =
    rotate-outcome small small_sodium-laws held (lit "pass") 9 world held-IsStored (omega arith)

change_passphrase-outcome_example :
    RekeyOutcome small
      (lit "pass")
      (lit "new")
      9
      held
      world
      (change_passphrase small held (lit "pass") (lit "new") 9 world)
change_passphrase-outcome_example =
    change_passphrase-outcome small small_sodium-laws held (lit "pass") (lit "new") 9 world
      held-IsStored (omega arith)

abbrev session : Session small
session = record { store = held; world = world; passphrase = lit "pass" }

abbrev changes : List Change
changes =
    set_key (lit "k") (lit "v")
    ∷ new_passphrase (lit "pass") (lit "new") 9
    ∷ rotate_key (lit "pass") 10
    ∷ remove_key (lit "k")
    ∷ []

run_session-reopens_example :
    (open_store small
      (run_session small session changes).store.path
      (run_session small session changes).passphrase
      (run_session small session changes).world).0
    ≡ ok (run_session small session changes).store
run_session-reopens_example =
    run_session-reopens small small_sodium-laws small_json-laws session changes (omega arith)
      (record { stored = held-IsStored; unlocked = held-IsUnlockedBy }) (λ n. refl) refl

get-set_example :
    get small (set small held (lit "k") (lit "v") world).store (lit "k")
    ≡ elim (set small held (lit "k") (lit "v") world).result [
      | ok _ ↦ if text_eq (lit "k") (lit "k") then ok (some (lit "v")) else get small held (lit "k")
      | err _ ↦ get small held (lit "k")
    ]
get-set_example =
    get-set small held world held-IsStored small_json-laws (lit "k") (lit "v") (lit "k")

pub scope_values :
    get_prefix small held (lit "dev/api/") ≡ ok ((lit "dev/api/KEY", lit "s3cret") ∷ [])
unfolding get_prefix lit starts_with
scope_values = refl
