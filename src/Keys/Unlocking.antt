-- ===== src/Keys/Unlocking.antt =====
-- When a passphrase unlocks an envelope, and what `unwrap` then returns.
use secretov.Prelude.{ℕ, ◌+◌, ◌≡◌, some}
use secretov.Prelude.Text.{Text}
use secretov.Prelude.Map.{Map}
use secretov.Prelude.Result.{ok}
use secretov.Platform.{allocated, Platform, SodiumLaws, JsonLaws}
use secretov.Io.{World}
use secretov.Header.{Envelope}
use secretov.Keys.{alloc_guarded, derived, derive_kdf_key, unwrap, decrypt_payload, as_members}

module _ (p : Platform) where
  -- The system never refuses a key buffer.
  abbrev pub AllocSucceeds : Type 0
  AllocSucceeds = (n : ℕ) → p.system.alloc_answer n ≡ allocated

  pub record IsUnlockedBy (passphrase : Text) (env : Envelope) (key : Text) : Type 0 where
    pub wrap_key : Text
    pub derives : p.sodium.pwhash passphrase env.salt env.opslimit env.memlimit ≡ some wrap_key
    pub unwraps : p.sodium.secretbox_open env.wrapped_key env.wrap_nonce wrap_key ≡ some key

  module _ (alloc : AllocSucceeds) where
    pub alloc_guarded-ok :
        (w : World) → alloc_guarded p w ≡ (ok tt, record w { calls = w.calls + 1 })
    unfolding alloc_guarded
    alloc_guarded-ok w = rw (alloc w.calls, alloc_guarded)

    pub derive_kdf_key-ok :
        {passphrase salt : Text} {ops mem : ℕ} {key : Text} (w : World)
        → p.sodium.pwhash passphrase salt ops mem ≡ some key
        → derive_kdf_key p passphrase salt ops mem w ≡ (ok key, record w { calls = w.calls + 1 })
    unfolding derive_kdf_key derived
    derive_kdf_key-ok w h = rw (alloc_guarded-ok w, h)

    pub unwrap-ok :
        {passphrase : Text} {env : Envelope} {key : Text} (fail_msg : Text) (w : World)
        (u : IsUnlockedBy passphrase env key)
        → unwrap p env passphrase fail_msg w ≡ (
          ok (record { wrap_key = u.wrap_key; data_key = key }),
          record w { calls = w.calls + 1 + 1 },
        )
    unfolding unwrap
    unwrap-ok fail_msg w u = rw (
      alloc_guarded-ok w,
      derive_kdf_key-ok (record w { calls = w.calls + 1 }) u.derives,
      u.unwraps,
    )

module _ (p : Platform) (box : SodiumLaws p.sodium) (laws : JsonLaws p.json) where
  pub decrypt_payload-secretbox :
      {plaintext : Text} {members : Map p.json.Value} (nonce key : Text)
      → p.json.dump (p.json.object members) ≡ some plaintext
      → decrypt_payload p (p.sodium.secretbox plaintext nonce key) nonce key ≡ ok members
  unfolding decrypt_payload
  decrypt_payload-secretbox {plaintext} {members} nonce key d =
      rw (box.open-secretbox plaintext nonce key, decrypt_payload)
        (rw (laws.parse-dump (p.json.object members) plaintext d, as_members)
          (rw (laws.as_object-object members, as_members)))
