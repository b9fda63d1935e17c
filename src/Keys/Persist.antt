-- ===== src/Keys/Persist.antt =====
-- What `persist` leaves on the disk, whether it returns or throws.
use secretov.Prelude.{ℕ, zero, suc, ◌≡◌, refl, ap, some, length, ◌⊎◌, inl, inr, Option-cases}
use secretov.Prelude.Text.{Text}
use secretov.Prelude.Map.{Map}
use secretov.Prelude.Result.{Result, ok, err, Result-cases}
use secretov.Platform.{Platform}
use secretov.Io.{World}
use secretov.Files.{Disk, write_file_atomic}
use secretov.Files.Atomic.{write_file_atomic-IsAtomic}
use secretov.Header.{Envelope, file_bytes}
use secretov.Keys.{bytes_from, random, persist}

pub length-bytes_from : (draw : ℕ → ℕ) (n : ℕ) → length (bytes_from draw n) ≡ n
unfolding bytes_from
length-bytes_from draw zero = refl
length-bytes_from draw (suc n) = ap suc (length-bytes_from draw n)

module _ (p : Platform) (path : Text) (members : Map p.json.Value) (key : Text)
    (env : Envelope) where
  -- The disk holds the store's file: these members under this key, with this header.
  pub record IsWritten (disk : Disk) : Type 0 where
    pub nonce : Text
    pub plaintext : Text
    pub dumped : p.json.dump (p.json.object members) ≡ some plaintext
    pub nonce_size : length nonce ≡ p.sodium.nonce_bytes
    pub on_disk : disk path ≡ some (file_bytes env nonce (p.sodium.secretbox plaintext nonce key))

  abbrev pub Outcome : World → Result Text (Unit {0}) × World → Type 0
  Outcome w r =
      ((r.0 ≡ ok tt) × IsWritten r.1.disk)
      ⊎ ((e : Text) × (r.0 ≡ err e) × (r.1.disk path ≡ w.disk path))

  write-Outcome :
      (w : World) (nonce plaintext : Text)
      → p.json.dump (p.json.object members) ≡ some plaintext
      → length nonce ≡ p.sodium.nonce_bytes
      → Outcome w (
          write_file_atomic p path
            (file_bytes env nonce (p.sodium.secretbox plaintext nonce key))
            w)
  write-Outcome w nonce plaintext d n =
      let contents = file_bytes env nonce (p.sodium.secretbox plaintext nonce key) in
      let i = write_file_atomic-IsAtomic p path contents w in
      elim (Result-cases (write_file_atomic p path contents w).0) [
        | inl (u, e) ↦ inl (
          e,
          record {
            nonce = nonce;
            plaintext = plaintext;
            dumped = d;
            nonce_size = n;
            on_disk = rw e at i.target;
          },
        )
        | inr (what, e) ↦ inr (what, e, rw e at i.target)
      ]

  -- A `persist` that returns has put the whole new file there; one that throws has left the old
  -- one.
  pub persist-Outcome : (w : World) → Outcome w (persist p path members key env w)
  unfolding persist random
  persist-Outcome w = elim (Option-cases (p.json.dump (p.json.object members))) [
    | inl e ↦ rw e (inr (p.json.invalid_utf8, refl, refl))
    | inr (plaintext, e) ↦ rw e (
        write-Outcome _ _ plaintext e
          (length-bytes_from (p.system.random_byte w.calls) p.sodium.nonce_bytes))
  ]
