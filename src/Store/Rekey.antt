-- ===== src/Store/Rekey.antt =====
-- Changing the keys: what `rotate` and `change_passphrase` do, on every branch.
use secretov.Prelude.{ℕ, ◌^◌, ◌≤◌, ◌<◌, ◌≡◌, refl, ap, ◌∙◌, Option, ◌⊎◌, inl, inr}
use secretov.Prelude.Text.{Text}
use secretov.Prelude.Result.{Result, ok, err}
use secretov.Platform.{Platform, SodiumLaws}
use secretov.Io.{World}
use secretov.Header.{Envelope}
use secretov.Keys.Minting.{IsDrawn}
use secretov.Keys.Unlocking.{IsUnlockedBy}
use secretov.Store.{Store, Run, commit_minted, commit_new_key, rotate, change_passphrase}
use secretov.Store.Changes.{AllOrNothing, commit_new_key-AllOrNothing}
use secretov.Store.Reopen.{IsStored}
use secretov.Store.Minting.{IsMintedFor, MintFacts, mint_rotation-facts, mint_passphrase-facts}

module _ (p : Platform) where
  -- The keys were changed, under `new`: the data key was drawn anew at random, at a call not made
  -- before, the old passphrase was proved, the members stay, and the KDF parameters are no weaker.
  pub record IsRekeyed (old new : Text) (now : ℕ) (s : Store p) (w : World) (run : Run p (Unit {0}))
      : Type 0 where
    pub drawn : IsDrawn p w.calls p.sodium.key_bytes run.store.key
    pub returned : run.result ≡ ok tt
    pub proved : (k : Text) × IsUnlockedBy p old s.env k
    pub unlocked : IsUnlockedBy p new run.store.env run.store.key
    pub dated : run.store.env.key_created_at ≡ now
    pub no_weaker :
        (s.env.opslimit ≤ run.store.env.opslimit) × (s.env.memlimit ≤ run.store.env.memlimit)
    pub same_members : run.store.members ≡ s.members
    pub same_path : run.store.path ≡ s.path

  -- The call threw, with the object and its file as before.
  pub record IsRefused (s : Store p) (w : World) (run : Run p (Unit {0})) : Type 0 where
    pub message : Text
    pub threw : run.result ≡ err message
    pub same_store : run.store ≡ s
    pub same_file : run.world.disk s.path ≡ w.disk s.path

  abbrev pub RekeyOutcome : Text → Text → ℕ → Store p → World → Run p (Unit {0}) → Type 0
  RekeyOutcome old new now s w run =
      (IsRekeyed old new now s w run ⊎ IsRefused s w run) × IsStored p run.store run.world.disk

  rekeyed :
      {old new : Text} {now : ℕ} {s : Store p} {key : Text} {next : Envelope} (w w' : World)
      (run : Run p (Unit {0}))
      → w'.disk ≡ w.disk
      → IsMintedFor p old new now w.calls s.env key next
      → AllOrNothing p s w' (record s { key = key; env = next }) tt run
      → IsRekeyed old new now s w run ⊎ IsRefused s w run
  rekeyed {old} {new} {now} {s} {key} {next} w w' run d m (inl (returned, e)) = inl (record {
    returned = returned;
    drawn = rw e m.drawn;
    proved = m.proved;
    unlocked = rw e m.unlocked;
    dated = ap (λ (t : Store p). t.env.key_created_at) e ∙ m.dated;
    no_weaker = rw e m.no_weaker;
    same_members = ap (λ (t : Store p). t.members) e;
    same_path = ap (λ (t : Store p). t.path) e;
  })
  rekeyed {s = s} w w' run d m (inr (message, threw, same, file)) = inr (record {
    message = message;
    threw = threw;
    same_store = same;
    same_file = file ∙ ap (λ (disk : Text → Option Text). disk s.path) d;
  })

  commit_minted-outcome :
      (old new : Text) (now : ℕ) (s : Store p) (w : World)
      (r : Result Text (Text × Envelope) × World)
      → IsStored p s w.disk
      → MintFacts p old new now s.env w r
      → RekeyOutcome old new now s w (commit_minted p s r)
  unfolding commit_minted
  commit_minted-outcome old new now s w (err e, w') stored (d, facts) = (
    inr (record {
      message = e;
      threw = refl;
      same_store = refl;
      same_file = ap (λ (disk : Text → Option Text). disk s.path) d;
    }),
    rw d stored,
  )
  commit_minted-outcome old new now s w (ok _, w') stored (d, inl (e, h)) = cc
  commit_minted-outcome old new now s w (ok (k, n), w') stored (d, inr (key, next, h, m)) =
      let same : ◌≡◌ {A = Text × Envelope} (k, n) (key, next) = cc h in
      let (all, kept) = commit_new_key-AllOrNothing p s key w' next m.fits (rw d stored) in
      rw (ap (λ (t : Text × Envelope). t.0) same, ap (λ (t : Text × Envelope). t.1) same)
        (rekeyed w w' (commit_new_key p s key next w') d m all, kept)

  module _ (box : SodiumLaws p.sodium) where
    -- `rotate` returns only to a caller whose passphrase unlocks the store; the store is then under
    -- a new data key, drawn from the random source at a call of its own (none of the calls before),
    -- dated `now`, that the same passphrase unlocks, with the same members. Otherwise it throws,
    -- with the object and its file unchanged. In both cases the file on the disk holds the object.
    pub rotate-outcome :
        (s : Store p) (passphrase : Text) (now : ℕ) (w : World)
        → IsStored p s w.disk
        → now < 2 ^ 64
        → RekeyOutcome passphrase passphrase now s w (rotate p s passphrase now w)
    unfolding rotate
    rotate-outcome s passphrase now w stored n =
        commit_minted-outcome passphrase passphrase now s w _ stored
          (mint_rotation-facts p box s passphrase now w n stored.fits)

    -- `change_passphrase` returns only to a caller whose old passphrase unlocks the store; the
    -- store is then under a new data key, drawn from the random source at a call of its own (none
    -- of the calls before), that the new passphrase unlocks, with the same members and KDF
    -- parameters no weaker than before. Otherwise it throws, with the object and its file
    -- unchanged. In both cases the file on the disk holds the object.
    pub change_passphrase-outcome :
        (s : Store p) (old new : Text) (now : ℕ) (w : World)
        → IsStored p s w.disk
        → now < 2 ^ 64
        → RekeyOutcome old new now s w (change_passphrase p s old new now w)
    unfolding change_passphrase
    change_passphrase-outcome s old new now w stored n =
        commit_minted-outcome old new now s w _ stored
          (mint_passphrase-facts p box s old new now w n stored.fits)
