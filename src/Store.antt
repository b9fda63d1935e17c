-- ===== src/Store.antt =====
-- The encrypted store (`class Store` of src/store.hpp, its methods in src/store.cpp). A method runs
-- on the store object and the world, and returns both, also when it throws.
pub mod Reopen
pub mod Changes
pub mod Minting
pub mod Rekey
pub mod Session
pub mod Written
pub mod Create
pub mod Migrate
pub mod Contents
pub mod Calls
use secretov.Prelude.{
  ℕ, ◌+◌, Option, none, some, Bool, true, false, not, ◌||◌, List, [], ◌∷◌, ◌++◌, take, drop, max,
  length, ltb, ◌==◌, is_some, if◌then◌else◌,
}
use secretov.Prelude.Text.{Text, lit, is_empty, starts_with, to_string}
use secretov.Prelude.Map.{Map, lookup, insert, erase, keys}
use secretov.Prelude.Sorting.{sort}
use secretov.Prelude.Result.{Result, ok, err}
use secretov.Platform.{Platform}
use secretov.Io.{World, Io, pure, throw, lift, ◌>>=◌, ◌>>◌}
use secretov.Files.{read_file_string}
use secretov.Header.{
  Envelope, no_envelope, version1, version2, version_of, has_magic, read_common_header,
  read_wrapping, header_size_v1, header_size_v2,
}
use secretov.Keys.{
  Unwrapped, alloc_guarded, ensure_sodium, derive_kdf_key, decrypt_payload, unwrap, mint_data_key,
  mint_fresh_envelope, persist,
}

module _ (p : Platform) where
  open p.sodium use {nonce_bytes, mac_bytes, opslimit_moderate, memlimit_moderate}

  pub record Store : Type 0 where
    pub path : Text
    pub members : Map p.json.Value
    pub key : Text
    pub env : Envelope

  -- What a method call leaves behind.
  pub record Run (A : Type 0) : Type 0 where
    pub result : Result Text A
    pub store : Store
    pub world : World

  unfoldable pub create : Text → Text → ℕ → Io Store
  create path passphrase now = do
    lift (ensure_sodium p)
    λ w.
        if is_some (w.disk path)
        then (err (lit "store already exists: '" ++ path ++ lit "'"), w)
        else (do
          (key, env) ←
              mint_fresh_envelope p passphrase opslimit_moderate memlimit_moderate now no_envelope
          persist p path [] key env
          pure (record { path = path; members = []; key = key; env = env }))
            w

  -- A version-1 file: the derived key encrypts the payload, and the file is migrated.
  unfoldable pub open_v1 : Text → Text → Text → Io Store
  open_v1 path passphrase buf =
      if ltb (length buf) (header_size_v1 p.sodium + mac_bytes)
      then throw (lit "corrupted store: truncated header or ciphertext")
      else do
        (env, at_nonce) ← lift (read_common_header p.sodium buf no_envelope)
        wrap_key ← derive_kdf_key p passphrase env.salt env.opslimit env.memlimit
        members ←
            lift
              (decrypt_payload p (drop nonce_bytes at_nonce) (take nonce_bytes at_nonce) wrap_key)
        alloc_guarded p
        (key, env') ← mint_data_key p wrap_key env
        persist p path members key env'
        pure (record { path = path; members = members; key = key; env = env' })

  unfoldable pub open_v2 : Text → Text → Text → Io Store
  open_v2 path passphrase buf =
      if ltb (length buf) (header_size_v2 p.sodium + mac_bytes)
      then throw (lit "corrupted store: truncated header or ciphertext: '" ++ path ++ lit "'")
      else do
        (common, at_wrapping) ← lift (read_common_header p.sodium buf no_envelope)
        let (env, at_nonce) = read_wrapping p.sodium at_wrapping common
        opened ← unwrap p env passphrase (lit "wrong passphrase or corrupted store")
        members ← lift (
            decrypt_payload p (drop nonce_bytes at_nonce) (take nonce_bytes at_nonce)
              opened.data_key)
        pure (record { path = path; members = members; key = opened.data_key; env = env })

  unfoldable pub open_store : Text → Text → Io Store
  open_store path passphrase = do
    lift (ensure_sodium p)
    buf ← read_file_string p path
    if not (has_magic buf)
        then throw (lit "not a secretov store: '" ++ path ++ lit "'")
        else if version_of buf == version1
        then open_v1 path passphrase buf
        else if not (version_of buf == version2)
        then throw (lit "unsupported version: " ++ to_string (version_of buf))
        else open_v2 path passphrase buf

  get_string : Option p.json.Value → Result Text (Option Text)
  get_string none = ok none
  get_string (some v) = elim (p.json.as_string v) [
    | none ↦ err p.json.not_a_string
    | some t ↦ ok (some t)
  ]

  unfoldable pub get : Store → Text → Result Text (Option Text)
  unfolding get_string
  get s k = get_string (lookup k s.members)

  -- Adopts the change only behind a write that returned.
  unfoldable pub adopt : {A : Type 0} → Store → Store → A → Result Text (Unit {0}) × World → Run A
  adopt s next result (ok _, w) = record { result = ok result; store = next; world = w }
  adopt s next result (err e, w) = record { result = err e; store = s; world = w }

  unfoldable pub set : Store → Text → Text → World → Run (Unit {0})
  unfolding adopt
  set s k value w =
      let next = insert k (p.json.string value) s.members in
      adopt s (record s { members = next }) tt (persist p s.path next s.key s.env w)

  unfoldable pub remove : Store → Text → World → Run Bool
  unfolding adopt
  remove s k w =
      if not (is_some (lookup k s.members))
      then record { result = ok false; store = s; world = w }
      else let next = erase k s.members in
        adopt s (record s { members = next }) true (persist p s.path next s.key s.env w)

  unfoldable pub list : Store → List Text
  list s = sort (keys s.members)

  -- The entries whose key has the prefix; a value that is no string throws.
  collect_prefix : Text → Map p.json.Value → Result Text (Map Text)
  collect_prefix prefix [] = ok []
  collect_prefix prefix ((k, v) ∷ m) =
      let rest = collect_prefix prefix m in
      if starts_with prefix k
      then elim (p.json.as_string v) [
        | none ↦ err p.json.not_a_string
        | some t ↦ elim rest [ ok out ↦ ok ((k, t) ∷ out) | err e ↦ err e ]
      ]
      else rest

  unfoldable pub get_prefix : Store → Text → Result Text (Map Text)
  unfolding collect_prefix
  get_prefix s prefix = collect_prefix prefix s.members

  unfoldable pub commit_new_key : Store → Text → Envelope → World → Run (Unit {0})
  unfolding adopt
  commit_new_key s new_data_key next w =
      adopt s (record s { key = new_data_key; env = next }) tt
        (persist p s.path s.members new_data_key next w)

  -- The end of rotate and change_passphrase: nothing changes if the new key could not be made.
  unfoldable pub commit_minted : Store → Result Text (Text × Envelope) × World → Run (Unit {0})
  commit_minted s (ok (key, next), w) = commit_new_key s key next w
  commit_minted s (err e, w) = record { result = err e; store = s; world = w }

  unfoldable pub mint_rotation : Store → Text → ℕ → Io (Text × Envelope)
  mint_rotation s passphrase now = do
    opened ← unwrap p s.env passphrase (lit "wrong passphrase")
    alloc_guarded p
    mint_data_key p opened.wrap_key (record s.env { key_created_at = now })

  unfoldable pub rotate : Store → Text → ℕ → World → Run (Unit {0})
  rotate s passphrase now w = commit_minted s (mint_rotation s passphrase now w)

  unfoldable pub mint_passphrase : Store → Text → Text → ℕ → Io (Text × Envelope)
  mint_passphrase s old_pass new_pass now =
      if is_empty new_pass then throw (lit "empty passphrase") else do
        opened ← unwrap p s.env old_pass (lit "wrong passphrase")
        mint_fresh_envelope p new_pass (max s.env.opslimit opslimit_moderate)
            (max s.env.memlimit memlimit_moderate) now no_envelope

  unfoldable pub change_passphrase : Store → Text → Text → ℕ → World → Run (Unit {0})
  change_passphrase s old_pass new_pass now w =
      commit_minted s (mint_passphrase s old_pass new_pass now w)
