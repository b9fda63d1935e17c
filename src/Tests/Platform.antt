-- ===== src/Tests/Platform.antt =====
-- A platform that runs: a checksum for a MAC, the passphrase's bytes for a derived key, random
-- bytes that count, and a system on which one write is interrupted and short and then succeeds,
-- and every second one fails at the rename.
use secretov.Prelude.{
  ℕ, ◌+◌, ◌%◌, ◌≡◌, Option, none, some, true, false, [], ◌∷◌, ◌++◌, arith, ◌==◌, if◌then◌else◌,
}
use secretov.Prelude.Text.{Text, lit}
use secretov.Platform.{
  interrupted, wrote, WriteAnswers, allocated, System, Sodium, SodiumLaws, Platform,
}
use secretov.Tests.Json.{small_json}

abbrev pub smooth : WriteAnswers
smooth = record {
  mkdir_fails = false;
  create_fails = false;
  writes = interrupted ∷ wrote 3 ∷ [];
  fsync_fails = false;
  close_fails = false;
  rename_fails = false;
  dir_sync_fails = false;
}

abbrev pub rough : WriteAnswers
rough = record smooth { rename_fails = true }

abbrev small_system : System
small_system = record {
  random_byte = λ calls i. calls + i;
  alloc_answer = λ calls. allocated;
  write_answers = λ calls. if calls % 4 == 2 then smooth else rough;
  error_text = λ calls. lit "EIO";
}

abbrev checksum : Text → ℕ
checksum [] = 0
checksum (b ∷ t) = b + checksum t

abbrev box : Text → Text → Text → Text
box m n k = checksum k ∷ m

abbrev open_box : Text → Text → Text → Option Text
open_box [] n k = none
open_box (mac ∷ m) n k = if mac == checksum k then some m else none

abbrev small_sodium : Sodium
small_sodium = record {
  init_fails = false;
  salt_bytes = 2;
  nonce_bytes = 2;
  key_bytes = 3;
  mac_bytes = 1;
  opslimit_min = 1;
  opslimit_moderate = 3;
  opslimit_sensitive = 4;
  memlimit_min = 8;
  memlimit_moderate = 16;
  memlimit_sensitive = 32;
  pwhash = λ passphrase salt ops mem. some (passphrase ++ salt);
  secretbox = box;
  secretbox_open = open_box;
}

open_box-box : (m n k : Text) → open_box (box m n k) n k ≡ some m
open_box-box m n k = ground arith

pub small_sodium-laws : SodiumLaws small_sodium
small_sodium-laws = record {
  length-secretbox = λ m n k. omega arith;
  open-secretbox = open_box-box;
  opslimit_order = omega arith;
  memlimit_order = omega arith;
}

abbrev pub small : Platform
small = record { system = small_system; sodium = small_sodium; json = small_json }
