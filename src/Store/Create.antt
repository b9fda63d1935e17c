-- ===== src/Store/Create.antt =====
-- Making a store (`Store::create`).
use secretov.Prelude.{
  ℕ, ◌^◌, ◌<◌, ◌≡◌, refl, ap, ◌∙◌, true, false, [], arith, ◌⊎◌, inl, inr, is_some, Bool-cases, ◌++◌,
}
use secretov.Prelude.Text.{Text, lit}
use secretov.Prelude.Result.{Result, ok, err, Result-cases}
use secretov.Platform.{Platform, SodiumLaws}
use secretov.Io.{World, is_ok, resume, ◌>>=◌}
use secretov.Files.{Disk}
use secretov.Header.{Envelope, no_envelope}
use secretov.Keys.{ensure_sodium, mint_fresh_envelope}
use secretov.Keys.Minting.{IsDrawn}
use secretov.Keys.Unlocking.{IsUnlockedBy}
use secretov.Store.{Store, create}
use secretov.Store.Minting.{Mints, IsFresh, mint_fresh_envelope-Mints}
use secretov.Store.Reopen.{IsStored}
use secretov.Store.Written.{new_store, written, written-WritesStore}

module _ (p : Platform) where
  -- An empty store of that date, which its file holds and the passphrase unlocks.
  pub record IsNew (path passphrase : Text) (now : ℕ) (disk : Disk) (s : Store p) : Type 0 where
    pub placed : s.path ≡ path
    pub empty : s.members ≡ []
    pub dated : s.env.key_created_at ≡ now
    pub stored : IsStored p s disk
    pub unlocked : IsUnlockedBy p passphrase s.env s.key

  -- A call that makes a store either returned a new one, whose key was drawn at random at a call not
  -- made before, or threw with the file at the path as before.
  abbrev pub MakesStore : Text → Text → ℕ → World → Result Text (Store p) × World → Type 0
  MakesStore path passphrase now w r =
      ((s : Store p) × (r.0 ≡ ok s)
        × IsNew path passphrase now r.1.disk s
        × IsDrawn p w.calls p.sodium.key_bytes s.key)
      ⊎ ((e : Text) × (r.0 ≡ err e) × (r.1.disk path ≡ w.disk path))

  made-MakesStore :
      (path passphrase : Text) {now ops mem : ℕ} (key : Text) (env : Envelope) (w₀ w : World)
      → w.disk ≡ w₀.disk
      → IsFresh p passphrase now ops mem w₀.calls key env
      → MakesStore path passphrase now w₀ (written p path [] key env w)
  made-MakesStore path passphrase key env w₀ w d fresh =
      elim (written-WritesStore p path [] key env fresh.fits w) [
        | inl (returned, stored) ↦ inl (
          new_store p path [] key env,
          returned,
          record {
            placed = refl;
            empty = refl;
            dated = fresh.dated;
            stored = stored;
            unlocked = fresh.unlocked;
          },
          fresh.drawn,
        )
        | inr (e, threw, same) ↦ inr (e, threw, same ∙ ap (λ (disk : Disk). disk path) d)
      ]

  then_made :
      (path passphrase : Text) {now ops mem : ℕ} (w : World)
      (r : Result Text (Text × Envelope) × World)
      → Mints p (IsFresh p passphrase now ops mem w.calls) w r
      → MakesStore path passphrase now w (resume r (λ t. written p path [] t.0 t.1))
  then_made path passphrase w (err e, w') (d, _) = inr (e, refl, ap (λ (disk : Disk). disk path) d)
  then_made path passphrase w (ok (k, v), w') (d, inl (e, h)) = cc
  then_made path passphrase w (ok (k, v), w') (d, inr (key, next, h, m)) =
      let same : ◌≡◌ {A = Text × Envelope} (k, v) (key, next) = cc h in
      rw (ap (λ (t : Text × Envelope). t.0) same, ap (λ (t : Text × Envelope). t.1) same)
        (made-MakesStore path passphrase key next w w' d m)

  minted-MakesStore :
      (box : SodiumLaws p.sodium) (path passphrase : Text) (now : ℕ) (w : World)
      → now < 2 ^ 64
      → MakesStore path passphrase now w (
          (mint_fresh_envelope p passphrase p.sodium.opslimit_moderate p.sodium.memlimit_moderate
                now no_envelope
              >>= λ (t : Text × Envelope). written p path [] t.0 t.1)
            w)
  minted-MakesStore box path passphrase now w n =
      let ops = p.sodium.opslimit_moderate in
      let mem = p.sodium.memlimit_moderate in
      let r : Result Text (Text × Envelope) × World =
        mint_fresh_envelope p passphrase ops mem now no_envelope w in
      let facts : Mints p (IsFresh p passphrase now ops mem w.calls) w r =
        mint_fresh_envelope-Mints p box passphrase ops mem now w w refl (omega arith)
          (omega (arith, box.opslimit_order, box.memlimit_order)) n in
      then_made path passphrase w r facts

  -- `create` returns an empty store at that path, with a data key that it drew from the random
  -- source at a call not made before, dated `now`, which its file holds and the passphrase unlocks;
  -- or it throws with the path's file as before; and it throws wherever a file is there already.
  pub create-MakesStore :
      (box : SodiumLaws p.sodium) (path passphrase : Text) (now : ℕ) (w : World)
      → now < 2 ^ 64
      → MakesStore path passphrase now w (create p path passphrase now w)
        × (is_some (w.disk path) ≡ true → is_ok (create p path passphrase now w).0 ≡ false)
  unfolding create
  create-MakesStore box path passphrase now w n = elim (Result-cases (ensure_sodium p)) [
    | inr (e, i) ↦ rw i (inr (e, refl, refl), λ h. refl)
    | inl (_, i) ↦ rw i (elim (Bool-cases (is_some (w.disk path))) [
      | inl there ↦
          rw there (inr (lit "store already exists: '" ++ path ++ lit "'", refl, refl), λ h. refl)
      | inr fresh ↦ rw fresh (minted-MakesStore box path passphrase now w n, λ h. cc)
    ])
  ]
