-- ===== src/Header/Words.antt =====
-- What is read from a header fits its fields.
use secretov.Prelude.{
  ℕ, zero, suc, ◌^◌, ◌≤◌, ◌<◌, ◌≡◌, [], ◌∷◌, arith, drop, take, length, length-take, length-drop,
}
use secretov.Prelude.Text.{Text}
use secretov.Prelude.Result.{ok}
use secretov.Platform.{Sodium}
use secretov.Header.{
  get_u64_le, Envelope, no_envelope, check_kdf_params, read_common_header, header_size_v1,
}

abbrev pub AreBytes : Text → Type 0
AreBytes [] = Unit
AreBytes (b ∷ s) = (b < 256) × AreBytes s

AreBytes-drop : (n : ℕ) (s : Text) → AreBytes s → AreBytes (drop n s)
AreBytes-drop zero s h = h
AreBytes-drop (suc n) [] h = h
AreBytes-drop (suc n) (b ∷ s) h = AreBytes-drop n s h.1

-- Eight bytes, or fewer at the end of a text, make a 64-bit integer.
get_u64_le-bound : (s : Text) → AreBytes s → get_u64_le s < 2 ^ 64
unfolding get_u64_le
get_u64_le-bound [] h = omega arith
get_u64_le-bound (a ∷ []) h = omega arith
get_u64_le-bound (a ∷ b ∷ []) h = omega arith
get_u64_le-bound (a ∷ b ∷ c ∷ []) h = omega arith
get_u64_le-bound (a ∷ b ∷ c ∷ d ∷ []) h = omega arith
get_u64_le-bound (a ∷ b ∷ c ∷ d ∷ e ∷ []) h = omega arith
get_u64_le-bound (a ∷ b ∷ c ∷ d ∷ e ∷ f ∷ []) h = omega arith
get_u64_le-bound (a ∷ b ∷ c ∷ d ∷ e ∷ f ∷ g ∷ []) h = omega arith
get_u64_le-bound (a ∷ b ∷ c ∷ d ∷ e ∷ f ∷ g ∷ i ∷ s) h = omega arith

module _ (sodium : Sodium) where
  pub record IsHeader (e : Envelope) : Type 0 where
    pub salt_size : length e.salt ≡ sodium.salt_bytes
    pub ops_range : (sodium.opslimit_min ≤ e.opslimit) × (e.opslimit ≤ sodium.opslimit_sensitive)
    pub mem_range : (sodium.memlimit_min ≤ e.memlimit) × (e.memlimit ≤ sodium.memlimit_sensitive)
    pub created_word : e.key_created_at < 2 ^ 64

  header_fields :
      (buf : Text) {e : Envelope} {rest : Text}
      → read_common_header sodium buf no_envelope ≡ ok (e, rest)
      → (e.salt ≡ take sodium.salt_bytes (drop 5 buf))
        × (e.key_created_at ≡ get_u64_le (drop 8 (drop 8 (drop sodium.salt_bytes (drop 5 buf)))))
  unfolding read_common_header
  header_fields buf h = ground (arith, h)

  pub read_common_header-IsHeader :
      (buf : Text) {e : Envelope} {rest : Text}
      → AreBytes buf
      → header_size_v1 sodium ≤ length buf
      → read_common_header sodium buf no_envelope ≡ ok (e, rest)
      → IsHeader e
  unfolding read_common_header check_kdf_params
  read_common_header-IsHeader buf bytes long h =
      let (salt, created) = header_fields buf h in
      let at_salt = drop 5 buf in
      record {
        salt_size =
            rw salt (omega (arith, length-take sodium.salt_bytes at_salt, length-drop 5 buf, long));
        ops_range = ground (arith, h);
        mem_range = ground (arith, h);
        created_word = rw created (
            get_u64_le-bound _ (
              AreBytes-drop 8 _ (
                AreBytes-drop 8 _
                  (AreBytes-drop sodium.salt_bytes at_salt (AreBytes-drop 5 buf bytes)))));
      }
