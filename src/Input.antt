-- ===== src/Input.antt =====
-- Reading a secret line or a passphrase from standard input (src/paths.hpp, src/client.cpp).
pub mod Accepted
use secretov.Prelude.{
  ℕ, ◌+◌, ◌^◌, Option, none, some, Bool, true, false, not, ◌&&◌, ◌||◌, ◌==◌, List, [], ◌∷◌, ◌++◌,
  ltb, leb, length, is_some, is_nil, if◌then◌else◌,
}
use secretov.Prelude.Result.{Result, ok, err, ◌>>=◌, throw_if}
use secretov.Prelude.Text.{Text, lit, is_empty, to_string, text_eq}

abbrev pub max_secret_line_bytes : ℕ
max_secret_line_bytes = 4096

abbrev pub max_tty_line_bytes : ℕ
max_tty_line_bytes = 4095

abbrev pub max_drain_bytes : ℕ
max_drain_bytes = 2 ^ 20

-- One ::read of a byte; without an answer it is at the end of the input.
pub data ByteCall : Type 0 where
  interrupted : ByteCall
  byte : ℕ → ByteCall
  unreadable : Text → ByteCall
  at_end : ByteCall

-- One ::read of the drain: interrupted, ended or failed, or so many bytes.
pub data DrainCall : Type 0 where
  drain_again drain_over : DrainCall
  drained : ℕ → DrainCall

-- Standard input, and the terminal's answers.
pub record Input : Type 0 where
  pub on_tty : Bool
  pub in_background : Bool
  pub echo_disabled : Bool
  -- whether the terminal can be set to tell what is queued
  pub peeks : Bool
  pub bytes : List ByteCall
  pub queue : List DrainCall

-- What the loop reads, and how it ends.
pub record Line : Type 0 where
  pub bytes : Text
  pub too_long : Bool
  pub read_error : Option Text

unfoldable pub read_bytes : List ByteCall → Text → Line
read_bytes [] line = record { bytes = line; too_long = false; read_error = none }
read_bytes (interrupted ∷ calls) line = read_bytes calls line
read_bytes (unreadable why ∷ calls) line = record {
  bytes = line;
  too_long = false;
  read_error = some why;
}
read_bytes (at_end ∷ calls) line = record { bytes = line; too_long = false; read_error = none }
read_bytes (byte b ∷ calls) line =
    let rest = read_bytes calls (line ++ (b ∷ [])) in
    if b == b'\n'
    then record { bytes = line; too_long = false; read_error = none }
    else if length line == max_secret_line_bytes
    then record { bytes = line; too_long = true; read_error = none }
    else rest

-- tty_input_left, for so many bytes drained.
unfoldable pub input_left : List DrainCall → ℕ → Bool → Bool
input_left [] so_far left = left
input_left (drain_over ∷ calls) so_far left = left
input_left (drain_again ∷ calls) so_far left = input_left calls so_far left
input_left (drained n ∷ calls) so_far left =
    let rest = input_left calls (so_far + n) true in
    if ltb so_far max_drain_bytes then rest else left

unfoldable pub drop_last_cr : Text → Text
drop_last_cr [] = []
drop_last_cr (c ∷ []) = if c == b'\r' then [] else c ∷ []
drop_last_cr (c ∷ d ∷ s) = c ∷ drop_last_cr (d ∷ s)

unfoldable pub is_truncated : Input → Line → Bool
is_truncated input line = input.on_tty && leb max_tty_line_bytes (length line.bytes)

unfoldable pub is_left : Input → Bool
is_left input =
    input.on_tty && (input.echo_disabled && (input.peeks && input_left input.queue 0 false))

unfoldable pub accept_line : Input → Line → Result Text Text
accept_line input line =
    if line.too_long
    then err (lit "input line longer than " ++ (to_string max_secret_line_bytes ++ lit " bytes"))
    else if is_truncated input line
    then err (
        lit "line may have been truncated by the terminal ("
        ++ (to_string max_tty_line_bytes ++ lit "-byte limit); pipe long values on stdin instead"))
    else if is_left input
    then err (
        lit
          "more input followed the line on the terminal (multi-line paste?); discarded it; pipe multi-line values on stdin instead")
    else elim line.read_error [
      | some why ↦ err (lit "read stdin: " ++ why)
      | none ↦ ok (drop_last_cr line.bytes)
    ]

unfoldable pub read_secret_line : Input → Result Text Text
read_secret_line input =
    if input.on_tty && input.in_background
    then err (
        lit
          "cannot prompt from a background process; run it in the foreground or pipe the input on stdin")
    else accept_line input (read_bytes input.bytes [])

unfoldable pub read_passphrase : Input → Result Text Text
read_passphrase input = do
  passphrase ← read_secret_line input
  if is_empty passphrase then err (lit "empty passphrase") else ok passphrase

unfoldable pub confirmed : Text → Result Text Text → Result Text Text
confirmed passphrase confirming = do
  confirm ← confirming
  _ ← throw_if (not (text_eq passphrase confirm)) (lit "passphrases do not match")
  ok passphrase

-- The second input is read only on a terminal. The warning about a short one is left out.
unfoldable pub read_new_passphrase : Input → Input → Result Text Text
read_new_passphrase input confirming = do
  passphrase ← read_passphrase input
  if input.on_tty then confirmed passphrase (read_passphrase confirming) else ok passphrase

-- A value that is piped in: all of it but one newline at its end, and then one '\r'.
unfoldable pub drop_last_newline : Text → Text
drop_last_newline [] = []
drop_last_newline (c ∷ []) = if c == b'\n' then [] else c ∷ []
drop_last_newline (c ∷ d ∷ s) = c ∷ drop_last_newline (d ∷ s)

unfoldable pub read_stdin_value : Text → Text
read_stdin_value piped = drop_last_cr (drop_last_newline piped)
