-- ===== src/Header.antt =====
-- The plaintext header of a store file: its integers, its layout and its checks (src/store.cpp).
pub mod RoundTrip
pub mod Words
use secretov.Prelude.{
  ℕ, zero, suc, ◌+◌, ◌*◌, ◌/◌, ◌%◌, ◌^◌, ◌≤◌, ◌<◌, ◌≡◌, Bool, not, ◌&&◌, ◌||◌, List, [], ◌∷◌, ◌++◌,
  map, ltb, take, drop, length, if◌then◌else◌,
}
use secretov.Prelude.Text.{Text, lit, starts_with}
use secretov.Prelude.Result.{Result, ok, err, ◌>>=◌, ◌>>◌, throw_if}
use secretov.Platform.{Sodium}

-- kMagic, kVersion1, kVersion2
unfoldable pub magic : Text
unfolding lit
magic = lit "SCTV"

abbrev pub version1 : ℕ
version1 = 1

abbrev pub version2 : ℕ
version2 = 2

-- static_cast<unsigned char>(v >> (8 * i)), for i below 8
unfoldable pub put_u64_le : ℕ → Text
put_u64_le v = map (λ i. v / 2 ^ (8 * i) % 256) (0 ∷ 1 ∷ 2 ∷ 3 ∷ 4 ∷ 5 ∷ 6 ∷ 7 ∷ [])

-- v |= p[i] << (8 * i): the shifted bytes share no bit, so the union is their sum.
unfoldable pub or_bytes : ℕ → ℕ → Text → ℕ
or_bytes v i [] = v
or_bytes v i (byte ∷ bytes) = or_bytes (v + byte * 2 ^ (8 * i)) (i + 1) bytes

-- The eight bytes at the front of `bytes`.
unfoldable pub get_u64_le : Text → ℕ
unfolding or_bytes
get_u64_le bytes = or_bytes 0 0 (take 8 bytes)

pub record Envelope : Type 0 where
  pub salt : Text
  pub opslimit : ℕ
  pub memlimit : ℕ
  pub key_created_at : ℕ
  pub wrap_nonce : Text
  pub wrapped_key : Text

abbrev pub no_envelope : Envelope
no_envelope = record {
  salt = [];
  opslimit = 0;
  memlimit = 0;
  key_created_at = 0;
  wrap_nonce = [];
  wrapped_key = [];
}

module _ (sodium : Sodium) where
  open sodium use {
    salt_bytes, nonce_bytes, key_bytes, mac_bytes, opslimit_min, opslimit_sensitive, memlimit_min,
    memlimit_sensitive,
  }

  -- kCommonHeaderSize, kHeaderSizeV1, kHeaderSizeV2
  abbrev pub common_header_size : ℕ
  common_header_size = 4 + 1 + salt_bytes + 8 + 8 + 8

  abbrev pub header_size_v1 : ℕ
  header_size_v1 = common_header_size + nonce_bytes

  abbrev pub header_size_v2 : ℕ
  header_size_v2 = common_header_size + nonce_bytes + (key_bytes + mac_bytes) + nonce_bytes

  unfoldable pub check_kdf_params : ℕ → ℕ → Result Text (Unit {0})
  check_kdf_params opslimit memlimit =
      throw_if
        (ltb opslimit_sensitive opslimit
          || ltb memlimit_sensitive memlimit
          || ltb opslimit opslimit_min
          || ltb memlimit memlimit_min)
        (lit "corrupted store: implausible KDF parameters")

  -- The fields behind magic and version, and what follows them: the bytes at the offset that the
  -- code returns.
  unfoldable pub read_common_header : Text → Envelope → Result Text (Envelope × Text)
  read_common_header buf envelope =
      let at_salt = drop 5 buf in
      let at_opslimit = drop salt_bytes at_salt in
      let at_memlimit = drop 8 at_opslimit in
      let at_created = drop 8 at_memlimit in
      let opslimit = get_u64_le at_opslimit in
      let memlimit = get_u64_le at_memlimit in
      check_kdf_params opslimit memlimit
      >> ok (
        record envelope {
          salt = take salt_bytes at_salt;
          opslimit = opslimit;
          memlimit = memlimit;
          key_created_at = get_u64_le at_created;
        },
        drop 8 at_created,
      )

  -- The fields of a version-2 header behind the common ones.
  unfoldable pub read_wrapping : Text → Envelope → Envelope × Text
  read_wrapping at_nonce envelope =
      let at_wrapped = drop nonce_bytes at_nonce in
      (
        record envelope {
          wrap_nonce = take nonce_bytes at_nonce;
          wrapped_key = take (key_bytes + mac_bytes) at_wrapped;
        },
        drop (key_bytes + mac_bytes) at_wrapped,
      )

  -- An envelope whose fields have the sizes of the format and the KDF parameters in range.
  pub record IsEnvelope (e : Envelope) : Type 0 where
    pub salt_size : length e.salt ≡ salt_bytes
    pub nonce_size : length e.wrap_nonce ≡ nonce_bytes
    pub wrapped_size : length e.wrapped_key ≡ key_bytes + mac_bytes
    pub ops_range : (opslimit_min ≤ e.opslimit) × (e.opslimit ≤ opslimit_sensitive)
    pub mem_range : (memlimit_min ≤ e.memlimit) × (e.memlimit ≤ memlimit_sensitive)
    pub words : (e.opslimit < 2 ^ 64) × (e.memlimit < 2 ^ 64) × (e.key_created_at < 2 ^ 64)

-- buf[sizeof(kMagic)], behind the size check
unfoldable pub version_of : Text → ℕ
version_of buf = elim (drop 4 buf) [ [] ↦ 0 | version ∷ rest ↦ version ]

unfoldable pub has_magic : Text → Bool
unfolding magic starts_with
has_magic buf = not (ltb (length buf) 5) && starts_with magic buf

-- The file that `persist` writes: header, payload nonce, ciphertext.
unfoldable pub file_bytes : Envelope → Text → Text → Text
file_bytes e payload_nonce ciphertext =
    magic
    ++ (version2
        ∷ (e.salt
            ++ (put_u64_le e.opslimit
                ++ (put_u64_le e.memlimit
                    ++ (put_u64_le e.key_created_at
                        ++ (e.wrap_nonce ++ (e.wrapped_key ++ (payload_nonce ++ ciphertext))))))))
