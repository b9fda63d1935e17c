-- ===== src/Client/Init/Ready.antt =====
-- What an init that reports success leaves.
use secretov.Prelude.{
  ℕ, ◌+◌, ◌^◌, ◌≤◌, ◌<◌, ◌≡◌, refl, ap, sym, ◌∙◌, Option, none, some, false, arith, inl, inr,
  length, is_some, Option-cases, Bool-cases,
}
use secretov.Prelude.Text.{Text, text_eq}
use secretov.Prelude.Result.{ok, Result-cases, ok_inj}
use secretov.Client.Init.{
  token_bytes, ensure_parent_dir, mint_token, init_files, finish_init, init_at,
}
use secretov.Files.{Disk, tmp_path, parent_to_make}
use secretov.Files.Atomic.{write_file_atomic-IsAtomic}
use secretov.Input.{Input, read_new_passphrase}
use secretov.Io.{World, outcome-cases}
use secretov.Keys.{random, bytes_from}
use secretov.Keys.Minting.{IsDrawn}
use secretov.Keys.Persist.{length-bytes_from}
use secretov.Paths.{Paths}
use secretov.Platform.{Platform, SodiumLaws}
use secretov.Store.{Store, create}
use secretov.Store.Calls.{create-Raises}
use secretov.Store.Create.{IsNew, create-MakesStore}
use secretov.Store.Reopen.{IsStored}

absent-none : (file : Option Text) → is_some file ≡ false → file ≡ none
absent-none none h = refl
absent-none (some contents) h = cc h

module _ (p : Platform) (bin2hex : Text → Text) where
  -- A token file holds the encoding of 32 bytes that the random source gave at a call from number
  -- `since` on.
  pub record IsTokenFile (since : ℕ) (path : Text) (disk : Disk) : Type 0 where
    pub raw : Text
    pub drawn : IsDrawn p since token_bytes raw
    pub size : length raw ≡ token_bytes
    pub on_disk : disk path ≡ some (bin2hex raw)

  ensure_parent_dir-disk :
      (path : Text) (w : World) → (ensure_parent_dir p bin2hex path w).1.disk ≡ w.disk
  unfolding ensure_parent_dir
  ensure_parent_dir-disk path w = elim (Option-cases (parent_to_make path)) [
    | inl e ↦ ground arith
    | inr (dir, e) ↦ ground arith
  ]

  ensure_parent_dir-calls :
      (path : Text) (w : World) → w.calls ≤ (ensure_parent_dir p bin2hex path w).1.calls
  unfolding ensure_parent_dir
  ensure_parent_dir-calls path w = elim (Option-cases (parent_to_make path)) [
    | inl e ↦ ground arith
    | inr (dir, e) ↦ ground arith
  ]

  mint_token-IsTokenFile :
      (since : ℕ) (path other : Text) (w : World) {w' : World}
      → since ≤ w.calls
      → text_eq path other ≡ false
      → text_eq (tmp_path path) other ≡ false
      → mint_token p bin2hex path w ≡ (ok tt, w')
      → IsTokenFile since path w'.disk × (w'.disk other ≡ w.disk other)
  unfolding mint_token random
  mint_token-IsTokenFile since path other w {w'} later apart apart_tmp h =
      let raw = bytes_from (p.system.random_byte w.calls) token_bytes in
      let w₁ = record w { calls = w.calls + 1 } in
      let i = write_file_atomic-IsAtomic p path (bin2hex raw) w₁ in
      let at = rw h at i in
      (
        record {
          raw = raw;
          drawn = (w.calls, later, refl);
          size = length-bytes_from (p.system.random_byte w.calls) token_bytes;
          on_disk = at.target;
        },
        at.others other apart apart_tmp,
      )

  -- What `create` leaves at the store's path when it returns.
  created :
      (box : SodiumLaws p.sodium) (path passphrase : Text) (now : ℕ) (w : World) {s : Store p}
      {w' : World}
      → now < 2 ^ 64
      → create p path passphrase now w ≡ (ok s, w')
      → IsNew p path passphrase now w'.disk s × (w.disk path ≡ none)
  created box path passphrase now w {s} {w'} n h =
      let (made, refused) = rw h at (create-MakesStore p box path passphrase now w n) in
      (elim made [
        | inr (e, other, _) ↦ cc
        | inl (x, e, fresh, drawn) ↦ rw (ok_inj e) (
          fresh,
          absent-none (w.disk path) (elim (Bool-cases (is_some (w.disk path))) [
            | inl there ↦ cc (refused there)
            | inr absent ↦ absent
          ]),
        )
      ])

  -- A store is on any disk that holds its file.
  moved :
      {s : Store p} {disk disk' : Disk}
      → IsStored p s disk
      → disk' s.path ≡ disk s.path
      → IsStored p s disk'
  moved stored same = record {
    fits = stored.fits;
    written = record {
      nonce = stored.written.nonce;
      plaintext = stored.written.plaintext;
      dumped = stored.written.dumped;
      nonce_size = stored.written.nonce_size;
      on_disk = same ∙ stored.written.on_disk;
    };
  }

  moved-IsNew :
      {path passphrase : Text} {now : ℕ} {s : Store p} {disk disk' : Disk}
      → IsNew p path passphrase now disk s
      → disk' path ≡ disk path
      → IsNew p path passphrase now disk' s
  moved-IsNew {disk = disk} {disk' = disk'} fresh same = record {
    placed = fresh.placed;
    empty = fresh.empty;
    dated = fresh.dated;
    stored = moved fresh.stored (ap disk' fresh.placed ∙ same ∙ sym (ap disk fresh.placed));
    unlocked = fresh.unlocked;
  }

  -- A new store, the token file, and that no store was there.
  pub record IsReady (paths : Paths) (passphrase : Text) (now : ℕ) (before after : World)
      : Type 0 where
    pub store : Store p
    pub is_new : IsNew p paths.store passphrase now after.disk store
    pub token : IsTokenFile before.calls paths.token after.disk
    pub was_absent : before.disk paths.store ≡ none

  module _ (box : SodiumLaws p.sodium) (paths : Paths)
      (apart : text_eq paths.token paths.store ≡ false)
      (apart_tmp : text_eq (tmp_path paths.token) paths.store ≡ false) (now : ℕ)
      (n : now < 2 ^ 64) where
    init_files-IsReady :
        (passphrase : Text) (w : World) {w' : World}
        → init_files p bin2hex paths passphrase now w ≡ (ok tt, w')
        → IsReady paths passphrase now w w'
    unfolding init_files
    init_files-IsReady passphrase w {w'} h =
        elim (outcome-cases (ensure_parent_dir p bin2hex paths.store w)) [
          | inr (e, w₁, i) ↦ cc (rw i at h)
          | inl (_, w₁, i) ↦ elim (outcome-cases (create p paths.store passphrase now w₁)) [
            | inr (e, w₂, j) ↦ cc (rw (i, j) at h)
            | inl (s, w₂, j) ↦
                let (fresh, absent) = created box paths.store passphrase now w₁ n j in
                let same : w₁.disk ≡ w.disk = rw i at (ensure_parent_dir-disk paths.store w) in
                let (token, kept) =
                  mint_token-IsTokenFile w.calls paths.token paths.store w₂
                    (omega (
                      arith,
                      rw i at (ensure_parent_dir-calls paths.store w),
                      rw j at (create-Raises p paths.store passphrase now w₁),
                    ))
                    apart apart_tmp (rw (i, j) at h) in
                record {
                  store = s;
                  is_new = moved-IsNew fresh kept;
                  token = token;
                  was_absent = ap (λ (disk : Disk). disk paths.store) (sym same) ∙ absent;
                }
          ]
        ]

    -- After an init that tells of success, for a token file that is not the store's: a passphrase
    -- was read, no store was there before, and now there is a new, empty one that the passphrase
    -- unlocks; and the token file holds the encoding of 32 bytes that the
    -- random source gave.
    pub init_at-IsReady :
        (input confirming : Input) (w : World)
        → (init_at p bin2hex paths input confirming now w).0.status ≡ 0
        → (passphrase : Text) × (read_new_passphrase input confirming ≡ ok passphrase)
          × IsReady paths passphrase now w (init_at p bin2hex paths input confirming now w).1
    unfolding init_at finish_init
    init_at-IsReady input confirming w h =
        elim (Result-cases (read_new_passphrase input confirming)) [
          | inr (e, i) ↦ cc (rw i at h)
          | inl (passphrase, i) ↦
              elim (outcome-cases (init_files p bin2hex paths passphrase now w)) [
                | inr (e, w', j) ↦ cc (rw (i, j) at h)
                | inl (_, w', j) ↦ (passphrase, i, simp (i, j) (init_files-IsReady passphrase w j))
              ]
        ]
