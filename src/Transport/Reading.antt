-- ===== src/Transport/Reading.antt =====
-- What `read_line` returns, however the bytes are cut.
use secretov.Prelude.{
  ℕ, zero, suc, ◌+◌, ◌≤◌, ◌≡◌, refl, sym, ap, subst, ◌∙◌, none, some, false, List, [], ◌∷◌, ◌++◌,
  arith, take, drop, length, append_assoc, append-nil, length-append, take-append, ltb, inl, inr,
  Bool-cases, Option-cases,
}
use native.Mathlib.Numerals.{unary_clauses}
use secretov.Prelude.Bytes.{find_byte-splits, unfound-short, split_unique, unfound_later}
use secretov.Prelude.Text.{Text, find_byte}
use secretov.Transport.{
  ReadCall, interrupted, failed, eof, bytes, Connection, Received, find_from, take_line, search,
  refill, read_line,
}

-- Nothing is missed by a search that leaves out what was searched before.
find_from_lem :
    (k : ℕ) (s : Text) → find_byte b'\n' (take k s) ≡ none → find_from k s ≡ find_byte b'\n' s
unfolding find_from find_byte
find_from_lem zero s h = ground arith
find_from_lem (suc k) [] h = ground arith
find_from_lem (suc k) (c ∷ s) h =
    ground (arith, find_from_lem k s (unfound_later b'\n' c (take k s) h))

-- What the peer still sends, up to the end of file or a failure.
abbrev pub arriving : List ReadCall → Text
arriving [] = []
arriving (interrupted ∷ calls) = arriving calls
arriving (bytes chunk ∷ calls) = chunk ++ arriving calls
arriving (eof ∷ calls) = []
arriving (failed would_block ∷ calls) = []

-- What is to be read: the buffer, and what arrives.
abbrev pub stream : Connection → List ReadCall → Text
stream c calls = c.buffer ++ arriving calls

abbrev pub IsScanned : Connection → Type 0
IsScanned c = find_byte b'\n' (take c.scanned c.buffer) ≡ none

-- The line was read, and what stands behind it is left.
pub record IsRead (line rest : Text) (r : Received) : Type 0 where
  pub got : r.line ≡ some line
  pub left : stream r.conn r.calls ≡ rest
  pub scanned : IsScanned r.conn

-- No line stands in a text without the byte.
unended : (b : ℕ) (s line rest : Text) → find_byte b s ≡ none → s ++ [] ≡ line ++ b ∷ rest → ⊥
unended b s line rest h e = omega (
  arith,
  unfound-short b s [] line rest h e,
  ap length (sym (append-nil s) ∙ e),
  length-append line (b ∷ rest),
)

not-over : {max_line_bytes : ℕ} (n : ℕ) → n ≤ max_line_bytes → ltb max_line_bytes n ≡ false
not-over n h = ground arith

regroup :
    (c : Connection) (calls : List ReadCall) (i : ℕ) {t : Text}
    → c.buffer ≡ take i c.buffer ++ b'\n' ∷ drop (suc i) c.buffer
    → stream c calls ≡ t
    → take i c.buffer ++ b'\n' ∷ (drop (suc i) c.buffer ++ arriving calls) ≡ t
regroup c calls i splits e =
    sym (append_assoc (take i c.buffer) (b'\n' ∷ drop (suc i) c.buffer) (arriving calls))
    ∙ ap (λ s. s ++ arriving calls) (sym splits)
    ∙ e

take_line-IsRead :
    (c : Connection) (calls : List ReadCall) (i : ℕ) {line rest : Text}
    → (take i c.buffer ≡ line) × (drop (suc i) c.buffer ++ arriving calls ≡ rest)
    → IsRead line rest (take_line c i calls)
unfolding find_byte
take_line-IsRead c calls i (e, e') = record {
  got = ap some e;
  left = simp unary_clauses e';
  scanned = refl;
}

module _ (max_line_bytes : ℕ) (line rest : Text) where
  search-IsRead :
      (c : Connection) (calls : List ReadCall) (go_on : Connection → Received)
      → IsScanned c
      → find_byte b'\n' line ≡ none
      → length line ≤ max_line_bytes
      → stream c calls ≡ line ++ b'\n' ∷ rest
      → (find_byte b'\n' c.buffer ≡ none
          → IsRead line rest (go_on (record c { scanned = length c.buffer })))
      → IsRead line rest (search max_line_bytes c calls go_on)
  unfolding search
  search-IsRead c calls go_on s l n e k = elim (Option-cases (find_byte b'\n' c.buffer)) [
    | inl unfound ↦
        let short = unfound-short b'\n' c.buffer (arriving calls) line rest unfound e in
        rw (find_from_lem c.scanned c.buffer s ∙ unfound, search)
          (rw (not-over {max_line_bytes = max_line_bytes} (length c.buffer) (omega arith))
            (k unfound))
    | inr (i, found) ↦
        let (splits, first) = find_byte-splits b'\n' c.buffer i found in
        rw (find_from_lem c.scanned c.buffer s ∙ found, search)
          (take_line-IsRead c calls i
            (split_unique b'\n' _ line _ rest first l (regroup c calls i splits e)))
  ]

  refill-IsRead :
      (calls : List ReadCall) (c : Connection)
      → find_byte b'\n' c.buffer ≡ none
      → find_byte b'\n' line ≡ none
      → length line ≤ max_line_bytes
      → stream c calls ≡ line ++ b'\n' ∷ rest
      → c.scanned ≡ length c.buffer
      → IsRead line rest (refill max_line_bytes calls c)
  unfolding refill
  refill-IsRead [] c u l n e s = absurd (unended b'\n' c.buffer line rest u e)
  refill-IsRead (interrupted ∷ calls) c u l n e s = refill-IsRead calls c u l n e s
  refill-IsRead (eof ∷ calls) c u l n e s = absurd (unended b'\n' c.buffer line rest u e)
  refill-IsRead (failed would_block ∷ calls) c u l n e s =
      absurd (unended b'\n' c.buffer line rest u e)
  refill-IsRead (bytes chunk ∷ calls) c u l n e s =
      search-IsRead (record c { buffer = c.buffer ++ chunk }) calls (refill max_line_bytes calls)
        (rw (s, take-append _ c.buffer chunk refl) u) l n
        (append_assoc c.buffer chunk (arriving calls) ∙ e)
        (λ u'. refill-IsRead calls _ u' l n (append_assoc c.buffer chunk (arriving calls) ∙ e) refl)

  -- The next line of what is buffered and what arrives, of at most `max_line_bytes` bytes, is read
  -- whole, however the reads cut it and however often they are interrupted; what stands behind its
  -- '\n' is left for the next call.
  pub read_line-IsRead :
      (c : Connection) (calls : List ReadCall)
      → IsScanned c
      → find_byte b'\n' line ≡ none
      → length line ≤ max_line_bytes
      → stream c calls ≡ line ++ b'\n' ∷ rest
      → IsRead line rest (read_line max_line_bytes c calls)
  unfolding read_line
  read_line-IsRead c calls s l n e =
      search-IsRead c calls (refill max_line_bytes calls) s l n e
        (λ u. refill-IsRead calls _ u l n e refl)

-- What a line that is returned is: the front of the stream, up to the first '\n'.
abbrev pub IsFront : Text → Received → Type 0
IsFront s r =
    (line : Text)
    → r.line ≡ some line
    → (s ≡ line ++ b'\n' ∷ stream r.conn r.calls) × (find_byte b'\n' line ≡ none)

take_line-IsFront :
    (c : Connection) (calls : List ReadCall) (i : ℕ) {s : Text}
    → s ≡ take i c.buffer ++ b'\n' ∷ (drop (suc i) c.buffer ++ arriving calls)
    → find_byte b'\n' (take i c.buffer) ≡ none
    → IsFront s (take_line c i calls)
take_line-IsFront c calls i {s} splits first line h =
    let same : take i c.buffer ≡ line = ground arith in
    subst
      (λ l.
        (s ≡ l ++ b'\n' ∷ (drop (i + 1) c.buffer ++ arriving calls)) × (find_byte b'\n' l ≡ none))
      same (simp unary_clauses splits, first)

module _ (max_line_bytes : ℕ) where
  search-IsFront :
      (c : Connection) (calls : List ReadCall) (go_on : Connection → Received)
      → IsScanned c
      → (find_byte b'\n' c.buffer ≡ none
          → IsFront (stream c calls) (go_on (record c { scanned = length c.buffer })))
      → IsFront (stream c calls) (search max_line_bytes c calls go_on)
  unfolding search
  search-IsFront c calls go_on s k = elim (Option-cases (find_byte b'\n' c.buffer)) [
    | inl unfound ↦
        rw (find_from_lem c.scanned c.buffer s ∙ unfound, search)
          (elim (Bool-cases (ltb max_line_bytes (length c.buffer))) [
            | inl over ↦ rw over (λ line h. cc)
            | inr within ↦ rw within (k unfound)
          ])
    | inr (i, found) ↦
        let (splits, first) = find_byte-splits b'\n' c.buffer i found in
        rw (find_from_lem c.scanned c.buffer s ∙ found, search)
          (take_line-IsFront c calls i (sym (regroup c calls i splits refl)) first)
  ]

  refill-IsFront :
      (calls : List ReadCall) (c : Connection)
      → c.scanned ≡ length c.buffer
      → find_byte b'\n' c.buffer ≡ none
      → IsFront (stream c calls) (refill max_line_bytes calls c)
  unfolding refill
  refill-IsFront [] c s u = λ line h. cc
  refill-IsFront (interrupted ∷ calls) c s u = refill-IsFront calls c s u
  refill-IsFront (eof ∷ calls) c s u = λ line h. cc
  refill-IsFront (failed would_block ∷ calls) c s u = λ line h. cc
  refill-IsFront (bytes chunk ∷ calls) c s u =
      subst (λ t. IsFront t (refill max_line_bytes (bytes chunk ∷ calls) c))
        (append_assoc c.buffer chunk (arriving calls))
        (search-IsFront (record c { buffer = c.buffer ++ chunk }) calls
          (refill max_line_bytes calls) (rw (s, take-append _ c.buffer chunk refl) u)
          (λ u'. refill-IsFront calls _ refl u'))

  -- A line that is returned is what comes before the first '\n' of what is buffered and what
  -- arrives, and what stands behind that '\n' is left.
  read_line-IsFront :
      (c : Connection) (calls : List ReadCall)
      → IsScanned c
      → IsFront (stream c calls) (read_line max_line_bytes c calls)
  unfolding read_line
  read_line-IsFront c calls s =
      search-IsFront c calls (refill max_line_bytes calls) s (λ u. refill-IsFront calls _ refl u)
