-- ===== src/Keys.antt =====
-- Keys and the encrypted file: the functions of src/store.cpp that the methods of Store share.
pub mod Unlocking
pub mod Persist
pub mod Minting
use secretov.Prelude.{
  ℕ, zero, suc, ◌+◌, ◌%◌, Option, none, some, Bool, true, false, not, List, [], ◌∷◌, ◌++◌, String,
  take, drop, max, length, ltb, ◌==◌, is_some, if◌then◌else◌,
}
use secretov.Prelude.Text.{Text, lit, is_empty, starts_with}
use secretov.Prelude.Map.{Map, lookup, insert, erase, keys}
use secretov.Prelude.Result.{Result, ok, err}
use secretov.Platform.{AllocAnswer, allocated, no_memory, lock_failed, Platform}
use secretov.Io.{World, Io, pure, throw, lift, ◌>>=◌, ◌>>◌}
use secretov.Files.{read_file_string, write_file_atomic}
use secretov.Header.{
  Envelope, no_envelope, version1, version2, version_of, has_magic, read_common_header,
  read_wrapping, header_size_v1, header_size_v2, file_bytes,
}

-- n random bytes, the last one drawn first.
unfoldable pub bytes_from : (ℕ → ℕ) → ℕ → Text
bytes_from draw zero = []
bytes_from draw (suc n) = draw n % 256 ∷ bytes_from draw n

-- Unwrapped
pub record Unwrapped : Type 0 where
  pub wrap_key : Text
  pub data_key : Text

module _ (p : Platform) where
  open p.sodium use {
    init_fails, nonce_bytes, key_bytes, mac_bytes, salt_bytes, opslimit_moderate, memlimit_moderate,
    pwhash, secretbox, secretbox_open,
  }

  -- randombytes_buf
  unfoldable pub random : ℕ → Io Text
  random n w = (ok (bytes_from (p.system.random_byte w.calls) n), record w { calls = w.calls + 1 })

  -- alloc_guarded: the buffer itself is the key that is later put into it.
  unfoldable pub alloc_guarded : Io (Unit {0})
  alloc_guarded w =
      let w' = record w { calls = w.calls + 1 } in
      elim (p.system.alloc_answer w.calls) [
        | allocated ↦ (ok tt, w')
        | no_memory ↦ (err (lit "out of memory allocating key material"), w')
        | lock_failed ↦ (err (lit "sodium_mlock failed: " ++ p.system.error_text w.calls), w')
      ]

  unfoldable pub ensure_sodium : Result Text (Unit {0})
  ensure_sodium = if init_fails then err (lit "libsodium initialization failed") else ok tt

  unfoldable pub derived : Option Text → Result Text Text
  derived none = err (lit "Argon2id key derivation failed (out of memory?)")
  derived (some key) = ok key

  unfoldable pub derive_kdf_key : Text → Text → ℕ → ℕ → Io Text
  derive_kdf_key passphrase salt opslimit memlimit = do
    alloc_guarded
    lift (derived (pwhash passphrase salt opslimit memlimit))

  or_throw : Text → Option Text → Result Text Text
  or_throw message none = err message
  or_throw message (some t) = ok t

  as_members : Option p.json.Value → Result Text (Map p.json.Value)
  as_members none = err (lit "corrupted store: decrypted payload is not valid JSON")
  as_members (some v) = elim (p.json.as_object v) [
    | none ↦ err (lit "corrupted store: decrypted payload is not a JSON object")
    | some m ↦ ok m
  ]

  unfoldable pub decrypt_payload : Text → Text → Text → Result Text (Map p.json.Value)
  unfolding as_members
  decrypt_payload ciphertext nonce key = elim (secretbox_open ciphertext nonce key) [
    | none ↦ err (lit "wrong passphrase or corrupted store")
    | some plaintext ↦ as_members (p.json.parse plaintext)
  ]

  unfoldable pub unwrap : Envelope → Text → Text → Io Unwrapped
  unfolding or_throw
  unwrap env passphrase fail_msg = do
    alloc_guarded
    wrap_key ← derive_kdf_key passphrase env.salt env.opslimit env.memlimit
    data_key ← lift (or_throw fail_msg (secretbox_open env.wrapped_key env.wrap_nonce wrap_key))
    pure (record { wrap_key = wrap_key; data_key = data_key })

  unfoldable pub mint_data_key : Text → Envelope → Io (Text × Envelope)
  mint_data_key wrap_key envelope = do
    data_key ← random key_bytes
    wrap_nonce ← random nonce_bytes
    pure (
      data_key,
      record envelope {
        wrap_nonce = wrap_nonce;
        wrapped_key = secretbox data_key wrap_nonce wrap_key;
      },
    )

  unfoldable pub mint_fresh_envelope : Text → ℕ → ℕ → ℕ → Envelope → Io (Text × Envelope)
  mint_fresh_envelope passphrase opslimit memlimit now envelope = do
    salt ← random salt_bytes
    wrap_key ← derive_kdf_key passphrase salt opslimit memlimit
    alloc_guarded
    mint_data_key wrap_key (record envelope {
      salt = salt;
      opslimit = opslimit;
      memlimit = memlimit;
      key_created_at = now;
    })

  unfoldable pub persist : Text → Map p.json.Value → Text → Envelope → Io (Unit {0})
  unfolding or_throw
  persist path members data_key envelope = do
    plaintext ← lift (or_throw p.json.invalid_utf8 (p.json.dump (p.json.object members)))
    payload_nonce ← random nonce_bytes
    write_file_atomic p path
        (file_bytes envelope payload_nonce (secretbox plaintext payload_nonce data_key))
