-- ===== src/Tests/Transport.antt =====
-- A line that is cut and interrupted on its way.
use secretov.Prelude.{◌≡◌, refl, true, false, List, [], ◌∷◌, ◌++◌, arith, none}
use secretov.Prelude.Text.{find_byte}
use secretov.Transport.{
  ReadCall, interrupted, failed, eof, bytes, SendCall, again, sent, Connection, read_line, send_all,
  write_line,
}
use secretov.Transport.Reading.{arriving, IsRead, read_line-IsRead}
use secretov.Transport.Framing.{read_line-write_line}

abbrev fresh : Connection
fresh = record { buffer = []; scanned = 0; timed_out = false }

-- Two bytes are buffered, and the first is searched.
abbrev partial : Connection
partial = record { buffer = 97 ∷ 98 ∷ []; scanned = 1; timed_out = false }

abbrev cut : List ReadCall
cut = interrupted ∷ bytes (99 ∷ []) ∷ interrupted ∷ bytes (10 ∷ 100 ∷ []) ∷ failed true ∷ []

abbrev sends : List SendCall
sends = again ∷ sent 1 ∷ again ∷ sent 2 ∷ []

no_newline : find_byte b'\n' (97 ∷ []) ≡ none
unfolding find_byte
no_newline = refl

no_newlines : find_byte b'\n' (97 ∷ 98 ∷ 99 ∷ []) ≡ none
unfolding find_byte
no_newlines = refl

read_line-IsRead_example : IsRead (97 ∷ 98 ∷ 99 ∷ []) (100 ∷ []) (read_line 3 partial cut)
read_line-IsRead_example =
    read_line-IsRead 3 (97 ∷ 98 ∷ 99 ∷ []) (100 ∷ []) partial cut no_newline no_newlines
      (omega arith) refl

all_sent : (write_line fresh sends (97 ∷ 98 ∷ 99 ∷ [])).done ≡ true
unfolding write_line send_all
all_sent = refl

abbrev arrived : List ReadCall
arrived = interrupted ∷ bytes (97 ∷ 98 ∷ []) ∷ bytes (99 ∷ 10 ∷ 100 ∷ []) ∷ eof ∷ []

arrives : arriving arrived ≡ (write_line fresh sends (97 ∷ 98 ∷ 99 ∷ [])).gone ++ 100 ∷ []
unfolding write_line send_all
arrives = refl

read_line-write_line_example : IsRead (97 ∷ 98 ∷ 99 ∷ []) (100 ∷ []) (read_line 3 fresh arrived)
read_line-write_line_example =
    read_line-write_line fresh fresh sends arrived 3 (97 ∷ 98 ∷ 99 ∷ []) (100 ∷ []) all_sent refl
      arrives no_newlines (omega arith)
