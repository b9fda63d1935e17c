-- ===== src/Header/RoundTrip.antt =====
-- The header that is written is the header that is read.
use secretov.Prelude.{
  ℕ, ◌+◌, ◌^◌, ◌<◌, ◌≡◌, refl, true, ◌++◌, arith, drop, take-append, drop-append, length,
  length-append,
}
use secretov.Prelude.Text.{Text}
use secretov.Prelude.Result.{ok}
use secretov.Platform.{Sodium}
use secretov.Header.{
  magic, version2, version_of, has_magic, put_u64_le, get_u64_le, Envelope, read_common_header,
  read_wrapping, IsEnvelope, check_kdf_params, file_bytes, header_size_v2,
}

length-put_u64_le : (v : ℕ) → length (put_u64_le v) ≡ 8
unfolding put_u64_le
length-put_u64_le v = refl

-- A 64-bit integer survives its eight bytes, whatever follows them.
get_u64_le-put_u64_le : (v : ℕ) (rest : Text) → v < 2 ^ 64 → get_u64_le (put_u64_le v ++ rest) ≡ v
unfolding get_u64_le put_u64_le
get_u64_le-put_u64_le v rest h = omega arith

module _ (sodium : Sodium) {e : Envelope} (fits : IsEnvelope sodium e) (old : Envelope) where
  check_kdf_params-ok : check_kdf_params sodium e.opslimit e.memlimit ≡ ok tt
  unfolding check_kdf_params
  check_kdf_params-ok = ground arith

  read_common_header-append :
      (buf tail : Text)
      → drop 5 buf
        ≡ e.salt
          ++ (put_u64_le e.opslimit
              ++ (put_u64_le e.memlimit ++ (put_u64_le e.key_created_at ++ tail)))
      → read_common_header sodium buf old
        ≡ ok (
          record old {
            salt = e.salt;
            opslimit = e.opslimit;
            memlimit = e.memlimit;
            key_created_at = e.key_created_at;
          },
          tail,
        )
  unfolding read_common_header
  read_common_header-append buf tail h = simp (
    h,
    drop-append sodium.salt_bytes e.salt _ fits.salt_size,
    take-append sodium.salt_bytes e.salt _ fits.salt_size,
    drop-append 8 (put_u64_le e.opslimit) _ (length-put_u64_le e.opslimit),
    drop-append 8 (put_u64_le e.memlimit) _ (length-put_u64_le e.memlimit),
    drop-append 8 (put_u64_le e.key_created_at) _ (length-put_u64_le e.key_created_at),
    get_u64_le-put_u64_le e.opslimit _ fits.words.0,
    get_u64_le-put_u64_le e.memlimit _ fits.words.1,
    get_u64_le-put_u64_le e.key_created_at _ fits.words.2,
    check_kdf_params-ok,
  )

module _ (sodium : Sodium) {e : Envelope} (fits : IsEnvelope sodium e) (old : Envelope) where
  -- The header of a written file reads back as its envelope, and leaves nonce and ciphertext.
  pub read_common_header-file_bytes :
      (nonce ciphertext : Text)
      → read_common_header sodium (file_bytes e nonce ciphertext) old
        ≡ ok (
          record old {
            salt = e.salt;
            opslimit = e.opslimit;
            memlimit = e.memlimit;
            key_created_at = e.key_created_at;
          },
          e.wrap_nonce ++ (e.wrapped_key ++ (nonce ++ ciphertext)),
        )
  unfolding file_bytes magic
  read_common_header-file_bytes nonce ciphertext =
      read_common_header-append sodium fits old (file_bytes e nonce ciphertext) _ refl

  pub read_wrapping-file_bytes :
      (nonce ciphertext : Text)
      → read_wrapping sodium
          (e.wrap_nonce ++ (e.wrapped_key ++ (nonce ++ ciphertext)))
          (record old {
            salt = e.salt;
            opslimit = e.opslimit;
            memlimit = e.memlimit;
            key_created_at = e.key_created_at;
          })
        ≡ (e, nonce ++ ciphertext)
  unfolding read_wrapping
  read_wrapping-file_bytes nonce ciphertext = simp (
    drop-append sodium.nonce_bytes e.wrap_nonce _ fits.nonce_size,
    take-append sodium.nonce_bytes e.wrap_nonce _ fits.nonce_size,
    drop-append (sodium.key_bytes + sodium.mac_bytes) e.wrapped_key _ fits.wrapped_size,
    take-append (sodium.key_bytes + sodium.mac_bytes) e.wrapped_key _ fits.wrapped_size,
  )

module _ (sodium : Sodium) {e : Envelope} (fits : IsEnvelope sodium e)
    (nonce ciphertext : Text) where
  pub version_of-file_bytes : version_of (file_bytes e nonce ciphertext) ≡ version2
  unfolding file_bytes version_of magic
  version_of-file_bytes = refl

  pub has_magic-file_bytes : has_magic (file_bytes e nonce ciphertext) ≡ true
  unfolding file_bytes has_magic
  has_magic-file_bytes = ground arith

  pub length-file_bytes :
      length nonce ≡ sodium.nonce_bytes
      → length (file_bytes e nonce ciphertext) ≡ header_size_v2 sodium + length ciphertext
  unfolding file_bytes magic
  length-file_bytes h = simp length-append (
      omega (
        arith,
        fits.salt_size,
        fits.nonce_size,
        fits.wrapped_size,
        length-put_u64_le e.opslimit,
        length-put_u64_le e.memlimit,
        length-put_u64_le e.key_created_at,
      ))
