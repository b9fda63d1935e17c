-- ===== src/Store/Migrate.antt =====
-- Opening a version-1 file, which `Store::open` migrates to version 2.
use secretov.Prelude.{
  ℕ, ◌+◌, ◌≤◌, ◌≡◌, refl, ap, ◌∙◌, some, true, take, drop, length, ltb, arith, ◌⊎◌, inl, inr,
  Bool-cases,
}
use secretov.Prelude.Text.{Text}
use secretov.Prelude.Map.{Map}
use secretov.Prelude.Result.{Result, ok, err, Result-cases}
use secretov.Platform.{Platform, SodiumLaws}
use secretov.Io.{World, resume, lift, ◌>>=◌, ◌>>◌, outcome-cases}
use secretov.Files.{Disk}
use secretov.Files.Atomic.{read_file_string-some}
use secretov.Header.{
  Envelope, no_envelope, version1, version_of, has_magic, read_common_header, header_size_v1,
}
use secretov.Header.Words.{AreBytes, read_common_header-IsHeader}
use secretov.Keys.{alloc_guarded, derive_kdf_key, decrypt_payload, ensure_sodium, mint_data_key}
use secretov.Keys.Minting.{
  IsDrawn, calls-alloc_guarded, calls-derive_kdf_key, disk-alloc_guarded, disk-derive_kdf_key,
  derive_kdf_key-eq_ok,
}
use secretov.Keys.Unlocking.{IsUnlockedBy}
use secretov.Store.{Store, open_v1, open_store}
use secretov.Store.Minting.{Mints, IsFresh, mint_data_key-Mints}
use secretov.Store.Reopen.{IsStored}
use secretov.Store.Written.{new_store, written, written-WritesStore}

module _ (p : Platform) where
  -- What the passphrase reads in a version-1 file.
  pub record WasRead (buf passphrase : Text) (members : Map p.json.Value) (created : ℕ)
      : Type 0 where
    pub header : Envelope
    pub behind : Text
    pub payload_key : Text
    pub read : read_common_header p.sodium buf no_envelope ≡ ok (header, behind)
    pub derives :
        p.sodium.pwhash passphrase header.salt header.opslimit header.memlimit ≡ some payload_key
    pub decrypts :
        decrypt_payload p
          (drop p.sodium.nonce_bytes behind)
          (take p.sodium.nonce_bytes behind)
          payload_key
        ≡ ok members
    pub dated : header.key_created_at ≡ created

  -- The store that a version-1 file gives, and its new file. Its key was drawn at random, at a call
  -- from number `since` on.
  pub record IsMigrated (path passphrase buf : Text) (since : ℕ) (disk : Disk) (s : Store p)
      : Type 0 where
    pub drawn : IsDrawn p since p.sodium.key_bytes s.key
    pub placed : s.path ≡ path
    pub was_read : WasRead buf passphrase s.members s.env.key_created_at
    pub stored : IsStored p s disk
    pub unlocked : IsUnlockedBy p passphrase s.env s.key

  abbrev pub Migrates : Text → Text → Text → World → Result Text (Store p) × World → Type 0
  Migrates path passphrase buf w r =
      ((s : Store p) × (r.0 ≡ ok s) × IsMigrated path passphrase buf w.calls r.1.disk s)
      ⊎ ((e : Text) × (r.0 ≡ err e) × (r.1.disk path ≡ w.disk path))

  written-Migrates :
      (path passphrase buf : Text) (members : Map p.json.Value) {now ops mem : ℕ} (key : Text)
      (env : Envelope) (w₀ w : World)
      → w.disk ≡ w₀.disk
      → WasRead buf passphrase members now
      → IsFresh p passphrase now ops mem w₀.calls key env
      → Migrates path passphrase buf w₀ (written p path members key env w)
  written-Migrates path passphrase buf members key env w₀ w d was fresh =
      elim (written-WritesStore p path members key env fresh.fits w) [
        | inl (returned, stored) ↦ inl (
          new_store p path members key env,
          returned,
          record {
            drawn = fresh.drawn;
            placed = refl;
            was_read = rw fresh.dated was;
            stored = stored;
            unlocked = fresh.unlocked;
          },
        )
        | inr (e, threw, same) ↦ inr (e, threw, same ∙ ap (λ (disk : Disk). disk path) d)
      ]

  then_written :
      (path passphrase buf : Text) (members : Map p.json.Value) {now ops mem : ℕ} (w : World)
      (r : Result Text (Text × Envelope) × World)
      → WasRead buf passphrase members now
      → Mints p (IsFresh p passphrase now ops mem w.calls) w r
      → Migrates path passphrase buf w (resume r (λ t. written p path members t.0 t.1))
  then_written path passphrase buf members w (err e, w') was (d, _) =
      inr (e, refl, ap (λ (disk : Disk). disk path) d)
  then_written path passphrase buf members w (ok (k, v), w') was (d, inl (e, h)) = cc
  then_written path passphrase buf members w (ok (k, v), w') was (d, inr (key, next, h, m)) =
      let same : ◌≡◌ {A = Text × Envelope} (k, v) (key, next) = cc h in
      rw (ap (λ (t : Text × Envelope). t.0) same, ap (λ (t : Text × Envelope). t.1) same)
        (written-Migrates path passphrase buf members key next w w' d was m)

  module _ (box : SodiumLaws p.sodium) (path passphrase buf : Text) (bytes : AreBytes buf) where
    -- Behind the payload's decryption.
    minted-Migrates :
        {header : Envelope} {behind payload_key : Text} (members : Map p.json.Value) (w₀ w : World)
        → w.disk ≡ w₀.disk
        → w₀.calls ≤ w.calls
        → header_size_v1 p.sodium ≤ length buf
        → read_common_header p.sodium buf no_envelope ≡ ok (header, behind)
        → p.sodium.pwhash passphrase header.salt header.opslimit header.memlimit ≡ some payload_key
        → decrypt_payload p
            (drop p.sodium.nonce_bytes behind)
            (take p.sodium.nonce_bytes behind)
            payload_key
          ≡ ok members
        → Migrates path passphrase buf w₀ (
            (do
              alloc_guarded p
              (key, env') ← mint_data_key p payload_key header
              written p path members key env')
              w)
    minted-Migrates {header} {behind} {payload_key} members w₀ w d later long r k m =
        let i = read_common_header-IsHeader p.sodium buf bytes long r in
        let was : WasRead buf passphrase members header.key_created_at = record {
          header = header;
          behind = behind;
          payload_key = payload_key;
          read = r;
          derives = k;
          decrypts = m;
          dated = refl;
        } in
        let d₁ = disk-alloc_guarded p w in
        let l₁ = calls-alloc_guarded p w in
        elim (outcome-cases (alloc_guarded p w)) [
          | inr (e, w₁, a) ↦
              rw a (inr (e, refl, ap (λ (disk : Disk). disk path) ((rw a at d₁) ∙ d)))
          | inl (_, w₁, a) ↦ rw a (
              then_written path passphrase buf members w₀ (mint_data_key p payload_key header w₁)
                was
                (mint_data_key-Mints p box passphrase header payload_key w₀ w₁ ((rw a at d₁) ∙ d)
                  (omega (arith, later, rw a at l₁)) k i.salt_size
                  (omega (arith, i.ops_range, i.mem_range)) i.created_word))
        ]

    decrypted-Migrates :
        {header : Envelope} {behind : Text} (w : World)
        → header_size_v1 p.sodium ≤ length buf
        → read_common_header p.sodium buf no_envelope ≡ ok (header, behind)
        → Migrates path passphrase buf w (
            (do
              wrap_key ← derive_kdf_key p passphrase header.salt header.opslimit header.memlimit
              members ← lift (
                  decrypt_payload p
                    (drop p.sodium.nonce_bytes behind)
                    (take p.sodium.nonce_bytes behind)
                    wrap_key)
              alloc_guarded p
              (key, env') ← mint_data_key p wrap_key header
              written p path members key env')
              w)
    decrypted-Migrates {header} {behind} w long r =
        let d = disk-derive_kdf_key p passphrase header.salt header.opslimit header.memlimit w in
        let l = calls-derive_kdf_key p passphrase header.salt header.opslimit header.memlimit w in
        let behind_nonce = drop p.sodium.nonce_bytes behind in
        let nonce = take p.sodium.nonce_bytes behind in
        elim (outcome-cases
          (derive_kdf_key p passphrase header.salt header.opslimit header.memlimit w)) [
            | inr (e, w₁, k) ↦ rw k (inr (e, refl, ap (λ (disk : Disk). disk path) (rw k at d)))
            | inl (key, w₁, k) ↦
                let derives =
                  derive_kdf_key-eq_ok p passphrase header.salt header.opslimit header.memlimit w
                    (ap (λ r. r.0) k) in
                rw k (elim (Result-cases (decrypt_payload p behind_nonce nonce key)) [
                  | inr (e, m) ↦ rw m (inr (e, refl, ap (λ (disk : Disk). disk path) (rw k at d)))
                  | inl (members, m) ↦
                      rw m (minted-Migrates members w w₁ (rw k at d) (rw k at l) long r derives m)
                ])
          ]

    open_v1-Migrates :
        (w : World) → Migrates path passphrase buf w (open_v1 p path passphrase buf w)
    unfolding open_v1
    open_v1-Migrates w =
        elim (Bool-cases (ltb (length buf) (header_size_v1 p.sodium + p.sodium.mac_bytes))) [
          | inl short ↦ rw short (inr (_, refl, refl))
          | inr enough ↦
              let long : header_size_v1 p.sodium ≤ length buf = ground (arith, enough) in
              rw enough (elim (Result-cases (read_common_header p.sodium buf no_envelope)) [
                | inr (e, r) ↦ rw r (inr (e, refl, refl))
                | inl ((header, behind), r) ↦ rw r (decrypted-Migrates w long r)
              ])
        ]

    -- Opening a file of version 1 returns a store with the members that the passphrase reads in it
    -- and its date, under a data key that it drew from the random source at a call not made before
    -- and that the passphrase unlocks, and the file at the path holds this store; or it throws,
    -- with the path's file as before.
    pub open_store-Migrates :
        (w : World)
        → w.disk path ≡ some buf
        → has_magic buf ≡ true
        → version_of buf ≡ version1
        → Migrates path passphrase buf w (open_store p path passphrase w)
    unfolding open_store
    open_store-Migrates w held magic version = elim (Result-cases (ensure_sodium p)) [
      | inr (e, i) ↦ rw i (inr (e, refl, refl))
      | inl (_, i) ↦ rw (i, read_file_string-some p w held, magic, version) (open_v1-Migrates w)
    ]
