-- ===== src/Transport.antt =====
-- Lines over the socket: `read_line` and `write_line` of `Connection` (src/transport.cpp,
-- src/transport.hpp).
pub mod Reading
pub mod Framing
pub mod Listener
use secretov.Prelude.{
  ℕ, ◌+◌, Option, none, some, Bool, true, false, List, [], ◌∷◌, ◌++◌, take, drop, length, ltb,
  if◌then◌else◌,
}
use secretov.Prelude.Text.{Text, find_byte}

-- One ::read: interrupted (EINTR), failed (whether errno is EAGAIN or EWOULDBLOCK), end of file, or
-- the bytes that came.
pub data ReadCall : Type 0 where
  interrupted eof : ReadCall
  failed : Bool → ReadCall
  bytes : Text → ReadCall

-- One ::send: interrupted, failed (as above), or the number of bytes that the kernel took.
pub data SendCall : Type 0 where
  again : SendCall
  broken : Bool → SendCall
  sent : ℕ → SendCall

pub record Connection : Type 0 where
  pub buffer : Text
  -- the front of the buffer that is known to hold no '\n'
  pub scanned : ℕ
  pub timed_out : Bool

-- What a read leaves: the line, the connection, and the calls that are still to be answered.
pub record Received : Type 0 where
  pub line : Option Text
  pub conn : Connection
  pub calls : List ReadCall

-- buffer_.find('\n', scanned_)
unfoldable pub find_from : ℕ → Text → Option ℕ
find_from scanned buffer = elim (find_byte b'\n' (drop scanned buffer)) [
  | none ↦ none
  | some i ↦ some (scanned + i)
]

-- The line before the '\n' at `newline_pos` leaves the buffer.
abbrev pub take_line : Connection → ℕ → List ReadCall → Received
take_line c newline_pos calls = record {
  line = some (take newline_pos c.buffer);
  conn = record c { buffer = drop (newline_pos + 1) c.buffer; scanned = 0 };
  calls = calls;
}

abbrev pub no_line : Connection → List ReadCall → Received
no_line c calls = record { line = none; conn = c; calls = calls }

-- One round of the loop before it reads: `go_on` reads more.
unfoldable pub search : ℕ → Connection → List ReadCall → (Connection → Received) → Received
search max_line_bytes c calls go_on = elim (find_from c.scanned c.buffer) [
  | some newline_pos ↦ take_line c newline_pos calls
  | none ↦
      if ltb max_line_bytes (length c.buffer)
      then no_line (record c { scanned = length c.buffer }) calls
      else go_on (record c { scanned = length c.buffer })
]

-- The read (with read_retry) and the rounds behind it. With no call left, the peer has closed.
unfoldable pub refill : ℕ → List ReadCall → Connection → Received
refill max_line_bytes [] c = no_line c []
refill max_line_bytes (interrupted ∷ calls) c = refill max_line_bytes calls c
refill max_line_bytes (eof ∷ calls) c = no_line c calls
refill max_line_bytes (failed would_block ∷ calls) c =
    no_line (record c { timed_out = would_block }) calls
refill max_line_bytes (bytes chunk ∷ calls) c =
    search max_line_bytes (record c { buffer = c.buffer ++ chunk }) calls
      (refill max_line_bytes calls)

unfoldable pub read_line : ℕ → Connection → List ReadCall → Received
read_line max_line_bytes c calls = search max_line_bytes c calls (refill max_line_bytes calls)

-- Whether all has been sent, what has been, and the connection.
pub record Sent : Type 0 where
  pub done : Bool
  pub gone : Text
  pub conn : Connection

-- The loop of write_line. With no call left, the kernel takes the rest at once.
unfoldable pub send_all : Connection → List SendCall → Text → Text → Sent
send_all c [] gone left = record { done = true; gone = gone ++ left; conn = c }
send_all c (call ∷ calls) gone [] = record { done = true; gone = gone; conn = c }
send_all c (again ∷ calls) gone (b ∷ left) = send_all c calls gone (b ∷ left)
send_all c (broken would_block ∷ calls) gone (b ∷ left) = record {
  done = false;
  gone = gone;
  conn = record c { timed_out = would_block };
}
send_all c (sent n ∷ calls) gone (b ∷ left) =
    send_all c calls (gone ++ take n (b ∷ left)) (drop n (b ∷ left))

unfoldable pub write_line : Connection → List SendCall → Text → Sent
write_line c calls line = send_all c calls [] (line ++ b'\n' ∷ [])
