-- ===== src/Platform.antt =====
-- What secretov calls and does not implement: the operating system, libsodium and nlohmann::json.
-- Each is a record of operations, with the documented behaviour that the code relies on as laws.
use secretov.Prelude.{ℕ, ◌+◌, ◌≤◌, ◌<◌, ◌^◌, ◌≡◌, Option, some, List, Bool, length}
use secretov.Prelude.Text.{Text}
use secretov.Prelude.Map.{Map}

-- One ::write: interrupted (EINTR), failed, or the number of bytes that the kernel took.
pub data WriteCall : Type 0 where
  interrupted failed : WriteCall
  wrote : ℕ → WriteCall

-- What the system answers to the calls of one atomic write. When `writes` has no answer left, one
-- more ::write takes all that remains.
pub record WriteAnswers : Type 0 where
  pub mkdir_fails : Bool
  pub create_fails : Bool
  pub writes : List WriteCall
  pub fsync_fails : Bool
  pub close_fails : Bool
  pub rename_fails : Bool
  pub dir_sync_fails : Bool

-- malloc and sodium_mlock of a key buffer.
pub data AllocAnswer : Type 0 where
  allocated no_memory lock_failed : AllocAnswer

-- The system's answers, by the number of calls made so far.
pub record System : Type 0 where
  pub random_byte : ℕ → ℕ → ℕ
  pub alloc_answer : ℕ → AllocAnswer
  pub write_answers : ℕ → WriteAnswers
  -- strerror(errno)
  pub error_text : ℕ → Text

-- libsodium: sizes, limits, Argon2id and the secretbox.
pub record Sodium : Type 0 where
  pub init_fails : Bool
  pub salt_bytes : ℕ
  pub nonce_bytes : ℕ
  pub key_bytes : ℕ
  pub mac_bytes : ℕ
  pub opslimit_min : ℕ
  pub opslimit_moderate : ℕ
  pub opslimit_sensitive : ℕ
  pub memlimit_min : ℕ
  pub memlimit_moderate : ℕ
  pub memlimit_sensitive : ℕ
  -- none: out of memory
  pub pwhash : Text → Text → ℕ → ℕ → Option Text
  pub secretbox : Text → Text → Text → Text
  pub secretbox_open : Text → Text → Text → Option Text

pub record SodiumLaws (s : Sodium) : Type 0 where
  pub length-secretbox : (m n k : Text) → length (s.secretbox m n k) ≡ length m + s.mac_bytes
  pub open-secretbox : (m n k : Text) → s.secretbox_open (s.secretbox m n k) n k ≡ some m
  pub opslimit_order :
      (s.opslimit_min ≤ s.opslimit_moderate)
      × (s.opslimit_moderate ≤ s.opslimit_sensitive)
      × (s.opslimit_sensitive < 2 ^ 64)
  pub memlimit_order :
      (s.memlimit_min ≤ s.memlimit_moderate)
      × (s.memlimit_moderate ≤ s.memlimit_sensitive)
      × (s.memlimit_sensitive < 2 ^ 64)

-- nlohmann::json. An object is a std::map of its members.
pub record Json : Type 1 where
  pub Value : Type 0
  -- none: parse_error
  pub parse : Text → Option Value
  -- none: the value holds invalid UTF-8, and the type_error thrown says `invalid_utf8`
  pub dump : Value → Option Text
  pub invalid_utf8 : Text
  pub not_a_string : Text
  pub not_a_boolean : Text
  pub not_an_object : Text
  pub object : Map Value → Value
  pub as_object : Value → Option (Map Value)
  pub string : Text → Value
  -- none: type_error
  pub as_string : Value → Option Text
  pub boolean : Bool → Value
  pub as_boolean : Value → Option Bool
  pub array : List Value → Value
  pub as_array : Value → Option (List Value)

pub record JsonLaws (j : Json) : Type 0 where
  pub parse-dump : (v : j.Value) (t : Text) → j.dump v ≡ some t → j.parse t ≡ some v
  pub as_object-object : (m : Map j.Value) → j.as_object (j.object m) ≡ some m
  pub as_string-string : (t : Text) → j.as_string (j.string t) ≡ some t
  pub as_boolean-boolean : (b : Bool) → j.as_boolean (j.boolean b) ≡ some b
  pub as_array-array : (l : List j.Value) → j.as_array (j.array l) ≡ some l

pub record Platform : Type 1 where
  pub system : System
  pub sodium : Sodium
  pub json : Json
