-- ===== src/Tests/Migrate.antt =====
-- A version-1 file with one secret, opened.
use secretov.Prelude.{◌≡◌, refl, none, some, true, [], ◌∷◌, ◌++◌, arith, if◌then◌else◌}
use secretov.Prelude.Text.{Text, lit, text_eq, text_eq_refl, rfind_byte, starts_with}
use secretov.Files.{write_file_atomic, read_file_string}
use secretov.Header.{
  put_u64_le, get_u64_le, has_magic, version_of, version1, magic, file_bytes, read_common_header,
  check_kdf_params,
}
use secretov.Header.Words.{AreBytes}
use secretov.Io.{World, is_ok}
use secretov.Keys.{
  ensure_sodium, random, derive_kdf_key, alloc_guarded, derived, mint_data_key, persist,
  decrypt_payload,
}
use secretov.Store.{open_store, open_v1}
use secretov.Store.Migrate.{Migrates, open_store-Migrates}
use secretov.Tests.Json.{framed}
use secretov.Tests.Platform.{small, small_sodium-laws}
use secretov.Tests.Stores.{store_path}

abbrev key_text : Text
key_text = 97 ∷ 1 ∷ 2 ∷ []

abbrev plain : Text
plain = framed (lit "K") (framed (lit "v") [])

abbrev old_file : Text
old_file =
    lit "SCTV"
    ++ (1
        ∷ 1
        ∷ 2
        ∷ (put_u64_le 3
            ++ (put_u64_le 16
                ++ (put_u64_le 7 ++ (5 ∷ 6 ∷ small.sodium.secretbox plain (5 ∷ 6 ∷ []) key_text)))))

abbrev old_world : World
old_world = record {
  disk = λ q. if text_eq store_path q then some old_file else none;
  calls = 1;
  stderr = [];
}

old_file-AreBytes : AreBytes old_file
unfolding lit put_u64_le
old_file-AreBytes = omega arith

held : old_world.disk store_path ≡ some old_file
held = rw (text_eq_refl store_path) refl

old_magic : has_magic old_file ≡ true
unfolding lit has_magic put_u64_le magic starts_with
old_magic = refl

old_version : version_of old_file ≡ version1
unfolding lit version_of put_u64_le
old_version = refl

open_store-Migrates_example :
    Migrates small store_path
      (lit "a")
      old_file
      old_world
      (open_store small store_path (lit "a") old_world)
open_store-Migrates_example =
    open_store-Migrates small small_sodium-laws store_path (lit "a") old_file old_file-AreBytes
      old_world held old_magic old_version

migration_returns : is_ok (open_store small store_path (lit "a") old_world).0 ≡ true
unfolding open_store open_v1 ensure_sodium read_file_string read_common_header check_kdf_params
    get_u64_le has_magic version_of random derive_kdf_key alloc_guarded derived decrypt_payload
    text_eq mint_data_key persist write_file_atomic rfind_byte file_bytes magic put_u64_le lit
    starts_with
migration_returns = refl
