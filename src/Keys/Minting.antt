-- ===== src/Keys/Minting.antt =====
-- What unwrapping and minting read and make: they change no file, and a minted envelope is unlocked
-- by the passphrase that it was minted for.
use secretov.Prelude.{ℕ, ◌+◌, ◌≤◌, ◌≡◌, refl, some, arith, length}
use secretov.Prelude.Text.{Text}
use secretov.Prelude.Result.{Result, ok}
use secretov.Platform.{Platform}
use secretov.Io.{World}
use secretov.Header.{Envelope}
use secretov.Keys.{
  Unwrapped, bytes_from, random, alloc_guarded, derived, derive_kdf_key, unwrap, mint_data_key,
}
use secretov.Keys.Persist.{length-bytes_from}

module _ (p : Platform) where
  pub disk-alloc_guarded : (w : World) → (alloc_guarded p w).1.disk ≡ w.disk
  unfolding alloc_guarded
  disk-alloc_guarded w = ground arith

  pub disk-derive_kdf_key :
      (passphrase salt : Text) (ops mem : ℕ) (w : World)
      → (derive_kdf_key p passphrase salt ops mem w).1.disk ≡ w.disk
  unfolding derive_kdf_key alloc_guarded
  disk-derive_kdf_key passphrase salt ops mem w = ground arith

  -- The random source is asked at call numbers; these calls only raise the number.
  pub calls-alloc_guarded : (w : World) → w.calls ≤ (alloc_guarded p w).1.calls
  unfolding alloc_guarded
  calls-alloc_guarded w = ground arith

  pub calls-derive_kdf_key :
      (passphrase salt : Text) (ops mem : ℕ) (w : World)
      → w.calls ≤ (derive_kdf_key p passphrase salt ops mem w).1.calls
  unfolding derive_kdf_key alloc_guarded
  calls-derive_kdf_key passphrase salt ops mem w = ground arith

  -- The bytes are what the random source gives at a call from number `since` on.
  abbrev pub IsDrawn : ℕ → ℕ → Text → Type 0
  IsDrawn since n bytes =
      (call : ℕ) × (since ≤ call) × (bytes ≡ bytes_from (p.system.random_byte call) n)

  pub derive_kdf_key-eq_ok :
      (passphrase salt : Text) (ops mem : ℕ) (w : World) {key : Text}
      → (derive_kdf_key p passphrase salt ops mem w).0 ≡ ok key
      → p.sodium.pwhash passphrase salt ops mem ≡ some key
  unfolding derive_kdf_key alloc_guarded derived
  derive_kdf_key-eq_ok passphrase salt ops mem w h = ground arith

  pub disk-unwrap :
      (env : Envelope) (passphrase msg : Text) (w : World)
      → (unwrap p env passphrase msg w).1.disk ≡ w.disk
  unfolding unwrap alloc_guarded
  disk-unwrap env passphrase msg w = ground (
    arith,
    disk-derive_kdf_key passphrase env.salt env.opslimit env.memlimit
        (record w { calls = w.calls + 1 }),
  )

  pub calls-unwrap :
      (env : Envelope) (passphrase msg : Text) (w : World)
      → w.calls ≤ (unwrap p env passphrase msg w).1.calls
  unfolding unwrap alloc_guarded
  calls-unwrap env passphrase msg w = ground (
    arith,
    calls-derive_kdf_key passphrase env.salt env.opslimit env.memlimit
        (record w { calls = w.calls + 1 }),
  )

  pub unwrap-eq_ok :
      (env : Envelope) (passphrase msg : Text) (w : World) {u : Unwrapped}
      → (unwrap p env passphrase msg w).0 ≡ ok u
      → (p.sodium.pwhash passphrase env.salt env.opslimit env.memlimit ≡ some u.wrap_key)
        × (p.sodium.secretbox_open env.wrapped_key env.wrap_nonce u.wrap_key ≡ some u.data_key)
  unfolding unwrap alloc_guarded derive_kdf_key derived
  unwrap-eq_ok env passphrase msg w h = ground arith

  -- Minting a data key always returns, changes no file, and wraps the key under `wrap_key`.
  pub record Minted (wrap_key : Text) (old : Envelope) (w : World)
      (r : Result Text (Text × Envelope) × World) : Type 0 where
    pub key : Text
    pub nonce : Text
    pub returned :
        r.0
        ≡ ok (
          key,
          record old { wrap_nonce = nonce; wrapped_key = p.sodium.secretbox key nonce wrap_key },
        )
    pub same_disk : r.1.disk ≡ w.disk
    pub drawn : key ≡ bytes_from (p.system.random_byte w.calls) p.sodium.key_bytes
    pub key_size : length key ≡ p.sodium.key_bytes
    pub nonce_size : length nonce ≡ p.sodium.nonce_bytes

  pub mint_data_key-Minted :
      (wrap_key : Text) (old : Envelope) (w : World)
      → Minted wrap_key old w (mint_data_key p wrap_key old w)
  unfolding mint_data_key random
  mint_data_key-Minted wrap_key old w = record {
    key = _;
    nonce = _;
    returned = refl;
    same_disk = refl;
    drawn = refl;
    key_size = length-bytes_from _ p.sodium.key_bytes;
    nonce_size = length-bytes_from _ p.sodium.nonce_bytes;
  }
