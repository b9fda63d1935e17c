-- ===== src/Input/Accepted.antt =====
-- Which lines are accepted as a secret.
use secretov.Prelude.{ℕ, ◌≤◌, ◌<◌, ◌≡◌, true, false, ◌==◌, List, [], ◌∷◌, length, if◌then◌else◌}
use secretov.Prelude.Text.{Text}
use secretov.Input.{
  max_secret_line_bytes, max_tty_line_bytes, ByteCall, interrupted, byte, unreadable, at_end, Input,
  DrainCall, drain_again, drain_over, drop_last_cr,
}

-- The bytes of the input up to its first newline, its end or its first error.
unfoldable pub first_line : List ByteCall → Text
first_line [] = []
first_line (interrupted ∷ calls) = first_line calls
first_line (unreadable why ∷ calls) = []
first_line (at_end ∷ calls) = []
first_line (byte b ∷ calls) = let rest = first_line calls in if b == b'\n' then [] else b ∷ rest

-- The calls came to a newline or to the end of the input without an error.
pub data IsUnbroken : List ByteCall → Type 0 where
  over : IsUnbroken []
  over_at_end : {calls : List ByteCall} → IsUnbroken (at_end ∷ calls)
  over_again : {calls : List ByteCall} → IsUnbroken calls → IsUnbroken (interrupted ∷ calls)
  over_newline : {calls : List ByteCall} → IsUnbroken (byte b'\n' ∷ calls)
  over_byte : {b : ℕ} {calls : List ByteCall} → IsUnbroken calls → IsUnbroken (byte b ∷ calls)

-- The calls of the drain found no bytes.
pub data IsQuiet : List DrainCall → Type 0 where
  quiet : IsQuiet []
  quiet_over : {calls : List DrainCall} → IsQuiet (drain_over ∷ calls)
  quiet_again : {calls : List DrainCall} → IsQuiet calls → IsQuiet (drain_again ∷ calls)

-- The secret is the first line of the input, but for one '\r' at its end.
pub record IsAccepted (input : Input) (secret : Text) : Type 0 where
  pub line : drop_last_cr (first_line input.bytes) ≡ secret
  pub bounded : length (first_line input.bytes) ≤ max_secret_line_bytes
  pub readable : IsUnbroken input.bytes
  pub on_terminal :
      input.on_tty ≡ true
      → (length (first_line input.bytes) < max_tty_line_bytes)
        × (input.in_background ≡ false)
        × (input.echo_disabled ≡ true → input.peeks ≡ true → IsQuiet input.queue)
