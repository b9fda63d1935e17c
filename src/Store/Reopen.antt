-- ===== src/Store/Reopen.antt =====
-- Opening a store file that `persist` wrote gives the store object back.
use secretov.Prelude.{◌+◌, ◌≡◌, false, arith, take-append, drop-append, length, ltb}
use secretov.Prelude.Text.{Text, lit}
use secretov.Prelude.Result.{ok}
use secretov.Platform.{Platform, SodiumLaws, JsonLaws}
use secretov.Io.{World}
use secretov.Files.{Disk}
use secretov.Files.Atomic.{read_file_string-some}
use secretov.Header.{no_envelope, IsEnvelope, file_bytes, header_size_v2}
use secretov.Header.RoundTrip.{
  read_common_header-file_bytes, read_wrapping-file_bytes, version_of-file_bytes,
  has_magic-file_bytes, length-file_bytes,
}
use secretov.Keys.{ensure_sodium}
use secretov.Keys.Persist.{IsWritten}
use secretov.Keys.Unlocking.{AllocSucceeds, IsUnlockedBy, unwrap-ok, decrypt_payload-secretbox}
use secretov.Store.{Store, open_store, open_v2}

module _ (p : Platform) where
  -- The disk holds exactly what the object holds.
  pub record IsStored (s : Store p) (disk : Disk) : Type 0 where
    pub fits : IsEnvelope p.sodium s.env
    pub written : IsWritten p s.path s.members s.key s.env disk

module _ (p : Platform) (box : SodiumLaws p.sodium) (laws : JsonLaws p.json) where
  module _ (alloc : AllocSucceeds p) {s : Store p} {passphrase : Text} (w : World)
      (stored : IsStored p s w.disk) (unlocked : IsUnlockedBy p passphrase s.env s.key) where
    abbrev ciphertext : Text
    ciphertext = p.sodium.secretbox stored.written.plaintext stored.written.nonce s.key

    abbrev file : Text
    file = file_bytes s.env stored.written.nonce ciphertext

    long_enough : ltb (length file) (header_size_v2 p.sodium + p.sodium.mac_bytes) ≡ false
    long_enough = ground (
      arith,
      length-file_bytes p.sodium stored.fits stored.written.nonce ciphertext
          stored.written.nonce_size,
      box.length-secretbox stored.written.plaintext stored.written.nonce s.key,
    )

    open_v2-stored :
        open_v2 p s.path passphrase file w ≡ (ok s, record w { calls = w.calls + 1 + 1 })
    unfolding open_v2
    open_v2-stored =
        let n = stored.written.nonce in
        simp (
          long_enough,
          read_common_header-file_bytes p.sodium stored.fits no_envelope n ciphertext,
          read_wrapping-file_bytes p.sodium stored.fits no_envelope n ciphertext,
          unwrap-ok p alloc (lit "wrong passphrase or corrupted store") w unlocked,
          drop-append p.sodium.nonce_bytes n ciphertext stored.written.nonce_size,
          take-append p.sodium.nonce_bytes n ciphertext stored.written.nonce_size,
          decrypt_payload-secretbox p box laws n s.key stored.written.dumped,
        )

    -- A store whose file is on the disk, opened with its passphrase, comes back as it was: the
    -- same members, data key and envelope; and opening changes no file.
    pub open_store-stored :
        p.sodium.init_fails ≡ false
        → open_store p s.path passphrase w ≡ (ok s, record w { calls = w.calls + 1 + 1 })
    unfolding open_store ensure_sodium
    open_store-stored init =
        let n = stored.written.nonce in
        simp
          (
            init,
            read_file_string-some p w stored.written.on_disk,
            has_magic-file_bytes p.sodium stored.fits n ciphertext,
            version_of-file_bytes p.sodium stored.fits n ciphertext,
          )
          open_v2-stored
