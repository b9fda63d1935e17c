-- ===== src/Transport/Framing.antt =====
-- What is written as a line is read as that line, however the bytes are cut.
use secretov.Prelude.{
  ℕ, zero, suc, ◌≤◌, ◌≡◌, refl, sym, ap, ◌∙◌, none, Bool, true, List, [], ◌∷◌, ◌++◌, take, drop,
  length, append_assoc, append-nil, take-append-drop,
}
use secretov.Prelude.Text.{Text, find_byte, is_empty}
use secretov.Transport.{
  ReadCall, SendCall, again, broken, sent, Connection, read_line, send_all, write_line,
}
use secretov.Transport.Reading.{arriving, IsRead, read_line-IsRead}

send_all_lem :
    (calls : List SendCall) (c : Connection) (gone left : Text)
    → (rest : Text) × ((send_all c calls gone left).gone ++ rest ≡ gone ++ left)
      × ((send_all c calls gone left).done ≡ is_empty rest)
unfolding send_all is_empty
send_all_lem [] c gone left = ([], append-nil _, refl)
send_all_lem (call ∷ calls) c gone [] = ([], refl, refl)
send_all_lem (again ∷ calls) c gone (b ∷ left) = send_all_lem calls c gone (b ∷ left)
send_all_lem (broken would_block ∷ calls) c gone (b ∷ left) = (b ∷ left, refl, refl)
send_all_lem (sent n ∷ calls) c gone (b ∷ left) =
    let (rest, e, d) = send_all_lem calls c (gone ++ take n (b ∷ left)) (drop n (b ∷ left)) in
    (rest, e ∙ append_assoc gone _ _ ∙ ap (◌++◌ gone) (take-append-drop n (b ∷ left)), d)

-- `write_line` sends a front of the line and its '\n', and returns true exactly where nothing is
-- left to send, however the kernel cuts it and however often it is interrupted.
write_line_lem :
    (c : Connection) (calls : List SendCall) (line : Text)
    → (rest : Text) × ((write_line c calls line).gone ++ rest ≡ line ++ b'\n' ∷ [])
      × ((write_line c calls line).done ≡ is_empty rest)
unfolding write_line
write_line_lem c calls line = send_all_lem calls c [] (line ++ b'\n' ∷ [])

nothing_left :
    (s rest t : Text) {done : Bool} → s ++ rest ≡ t → done ≡ is_empty rest → done ≡ true → s ≡ t
unfolding is_empty
nothing_left s [] t e d h = sym (append-nil s) ∙ e
nothing_left s (b ∷ rest) t e d h = cc

unscanned : (k : ℕ) {s : Text} → s ≡ [] → find_byte b'\n' (take k s) ≡ none
unfolding find_byte
unscanned zero e = refl
unscanned (suc k) e = rw e refl

-- A line that `write_line` has sent whole is the line that the peer's `read_line` returns, and what
-- comes behind it is left, for every cut of the bytes on either side.
pub read_line-write_line :
    (c c' : Connection) (sends : List SendCall) (calls : List ReadCall) (max_line_bytes : ℕ)
    (line later : Text)
    → (write_line c sends line).done ≡ true
    → c'.buffer ≡ []
    → arriving calls ≡ (write_line c sends line).gone ++ later
    → find_byte b'\n' line ≡ none
    → length line ≤ max_line_bytes
    → IsRead line later (read_line max_line_bytes c' calls)
read_line-write_line c c' sends calls max_line_bytes line later d b e l n =
    let (rest, whole, empty) = write_line_lem c sends line in
    read_line-IsRead max_line_bytes line later c' calls (unscanned c'.scanned b) l n (
      rw b (
        e
        ∙ ap (λ s. s ++ later) (nothing_left _ rest _ whole empty d)
        ∙ append_assoc line (b'\n' ∷ []) later))
