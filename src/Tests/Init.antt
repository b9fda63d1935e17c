-- ===== src/Tests/Init.antt =====
-- An init on a system where every write succeeds.
use secretov.Prelude.{
  ℕ, ◌+◌, ◌*◌, ◌/◌, ◌%◌, ◌<◌, ◌≡◌, refl, none, true, false, [], ◌∷◌, arith, length, ltb,
  if◌then◌else◌,
}
use secretov.Prelude.Result.{ok}
use secretov.Prelude.Text.{Text, lit, text_eq, rfind_byte, is_empty}
use secretov.Client.Init.{
  token_bytes, init_at, finish_init, init_files, ensure_parent_dir, mint_token,
}
use secretov.Client.Init.Starts.{
  is_hex_digit, AreHexDigits, no_digits, digit_then, BinToHexLaws, init_at-start,
}
use secretov.Daemon.Startup.{start}
use secretov.Files.{tmp_path, parent_to_make, write_file_atomic}
use secretov.Header.{magic, file_bytes}
use secretov.Input.{
  Input, byte, read_new_passphrase, read_passphrase, confirmed, read_bytes, input_left,
  drop_last_cr, is_truncated, is_left, accept_line, read_secret_line,
}
use secretov.Io.{World}
use secretov.Keys.{
  ensure_sodium, mint_fresh_envelope, random, derive_kdf_key, alloc_guarded, derived, mint_data_key,
  persist, bytes_from,
}
use secretov.Keys.Minting.{IsDrawn}
use secretov.Paths.{Paths}
use secretov.Platform.{Platform}
use secretov.Store.{Store, create}
use secretov.Tests.Json.{small_json-laws}
use secretov.Tests.Platform.{smooth, small, small_sodium-laws}

abbrev calm : Platform
calm = record small { system = record small.system { write_answers = λ calls. smooth } }

abbrev hex_digit : ℕ → ℕ
hex_digit n = if ltb n 10 then 48 + n else 87 + n

abbrev to_hex : Text → Text
to_hex [] = []
to_hex (b ∷ raw) = hex_digit (b / 16 % 16) ∷ hex_digit (b % 16) ∷ to_hex raw

hex_digit-digit : (n : ℕ) → n < 16 → is_hex_digit (hex_digit n) ≡ true
hex_digit-digit n h = ground (arith, h)

to_hex-digits : (raw : Text) → AreHexDigits (to_hex raw)
to_hex-digits [] = no_digits
to_hex-digits (b ∷ raw) =
    digit_then (hex_digit-digit (b / 16 % 16) (omega arith))
      (digit_then (hex_digit-digit (b % 16) (omega arith)) (to_hex-digits raw))

length-to_hex : (raw : Text) → length (to_hex raw) ≡ 2 * length raw
length-to_hex [] = refl
length-to_hex (b ∷ raw) = omega (arith, length-to_hex raw)

to_hex-laws : BinToHexLaws to_hex
to_hex-laws = record { digits = to_hex-digits; size = length-to_hex }

abbrev places : Paths
places = record {
  store = lit "/d/store";
  token = lit "/c/token";
  registry = lit "/c/projects.yaml";
  socket = lit "/r/secretov.sock";
}

abbrev piped : Input
piped = record {
  on_tty = false;
  in_background = false;
  echo_disabled = false;
  peeks = false;
  bytes = byte 112 ∷ byte 119 ∷ byte 10 ∷ [];
  queue = [];
}

abbrev empty_disk : World
empty_disk = record { disk = λ path. none; calls = 0; stderr = [] }

init_succeeds : (init_at calm to_hex places piped piped 7 empty_disk).0.status ≡ 0
unfolding init_at finish_init init_files ensure_parent_dir mint_token create ensure_sodium
    mint_fresh_envelope random derive_kdf_key alloc_guarded derived mint_data_key persist
    write_file_atomic parent_to_make rfind_byte file_bytes magic lit bytes_from read_new_passphrase
    read_passphrase confirmed read_bytes input_left drop_last_cr is_truncated is_left accept_line
    read_secret_line is_empty
init_succeeds = refl

token_is_apart : text_eq places.token places.store ≡ false
unfolding lit text_eq
token_is_apart = refl

temporary_is_apart : text_eq (tmp_path places.token) places.store ≡ false
unfolding lit text_eq tmp_path
temporary_is_apart = refl

abbrev left : World
left = (init_at calm to_hex places piped piped 7 empty_disk).1

init_at-start_example :
    (passphrase : Text) × (raw : Text) × (s : Store calm) × (read_new_passphrase piped piped
      ≡ ok passphrase)
    × (empty_disk.disk places.store ≡ none)
    × IsDrawn calm empty_disk.calls token_bytes raw
    × (length raw ≡ token_bytes)
    × (s.members ≡ [])
    × (start calm places.store places.token places.socket false passphrase 8 left
        ≡ (ok (s, to_hex raw), record left { calls = left.calls + 1 + 1 }))
init_at-start_example =
    init_at-start calm to_hex to_hex-laws small_sodium-laws small_json-laws (λ n. refl) refl places
      7 8 piped piped empty_disk left token_is_apart temporary_is_apart (omega arith) (omega arith)
      init_succeeds refl
