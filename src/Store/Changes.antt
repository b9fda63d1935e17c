-- ===== src/Store/Changes.antt =====
-- Changing the members: what `set` and `remove` do to the object and to the file, on every branch.
use secretov.Prelude.{◌≡◌, refl, ◌∙◌, true, false, ◌⊎◌, inl, inr, is_some, Bool-cases}
use secretov.Prelude.Text.{Text}
use secretov.Prelude.Map.{Map, lookup, insert, erase}
use secretov.Prelude.Result.{Result, ok, err}
use secretov.Platform.{Platform}
use secretov.Io.{World}
use secretov.Files.{Disk}
use secretov.Header.{Envelope, IsEnvelope}
use secretov.Keys.Persist.{IsWritten, Outcome, persist-Outcome}
use secretov.Store.{Store, Run, adopt, set, remove, commit_new_key}
use secretov.Store.Reopen.{IsStored}

module _ (p : Platform) where
  IsWritten-eq :
      {path : Text} {members : Map p.json.Value} {key : Text} {env : Envelope} {disk : Disk}
      (disk' : Disk)
      → disk' path ≡ disk path
      → IsWritten p path members key env disk
      → IsWritten p path members key env disk'
  IsWritten-eq disk' e h = record {
    nonce = h.nonce;
    plaintext = h.plaintext;
    dumped = h.dumped;
    nonce_size = h.nonce_size;
    on_disk = e ∙ h.on_disk;
  }

  -- The file on the disk matches another disk that holds the same file.
  pub IsStored-eq :
      {s : Store p} {disk : Disk} (disk' : Disk)
      → disk' s.path ≡ disk s.path
      → IsStored p s disk
      → IsStored p s disk'
  IsStored-eq disk' e h = record { fits = h.fits; written = IsWritten-eq disk' e h.written }

  -- A method call either returned `result`, with the object now `next`; or threw, with the object
  -- and its file as before.
  abbrev pub AllOrNothing : {A : Type 0} → Store p → World → Store p → A → Run p A → Type 0
  AllOrNothing s w next result run =
      ((run.result ≡ ok result) × (run.store ≡ next))
      ⊎ ((e : Text) × (run.result ≡ err e)
          × (run.store ≡ s)
          × (run.world.disk s.path ≡ w.disk s.path))

  module _ {A : Type 0} (s next : Store p) (result : A) (same_path : next.path ≡ s.path)
      (w : World) where
    adopt-IsStored :
        (r : Result Text (Unit {0}) × World)
        → IsEnvelope p.sodium next.env
        → Outcome p next.path next.members next.key next.env w r
        → IsStored p s w.disk
        → IsStored p (adopt p s next result r).store (adopt p s next result r).world.disk
    unfolding adopt
    adopt-IsStored (ok _, w') fits (inl (_, h)) old = record { fits = fits; written = h }
    adopt-IsStored (ok _, w') fits (inr (e, b, _)) old = cc
    adopt-IsStored (err _, w') fits (inl (b, h)) old = cc
    adopt-IsStored (err _, w') fits (inr (e, _, same)) old =
        IsStored-eq w'.disk (subst_path same) old
      where
        subst_path : w'.disk next.path ≡ w.disk next.path → w'.disk s.path ≡ w.disk s.path
        subst_path h = rw same_path at h

    adopt-AllOrNothing :
        (r : Result Text (Unit {0}) × World)
        → Outcome p next.path next.members next.key next.env w r
        → AllOrNothing s w next result (adopt p s next result r)
    unfolding adopt
    adopt-AllOrNothing (ok _, w') o = inl (refl, refl)
    adopt-AllOrNothing (err _, w') (inl (b, h)) = cc
    adopt-AllOrNothing (err what, w') (inr (e, _, same)) =
        inr (what, refl, refl, rw same_path at same)

module _ (p : Platform) (s : Store p) (key : Text) (w : World) where
  -- `set` either returns, with the value put under its key, or throws, with the object and the file
  -- on the disk unchanged; and the file holds the object's members afterwards in both cases.
  pub set-AllOrNothing :
      (value : Text)
      → IsStored p s w.disk
      → AllOrNothing p s w
          (record s { members = insert key (p.json.string value) s.members })
          tt
          (set p s key value w)
        × IsStored p (set p s key value w).store (set p s key value w).world.disk
  unfolding set
  set-AllOrNothing value old =
      let next = record s { members = insert key (p.json.string value) s.members } in
      let o = persist-Outcome p s.path next.members s.key s.env w in
      (
        adopt-AllOrNothing p s next tt refl w _ o,
        adopt-IsStored p s next tt refl w _ old.fits o old,
      )

  -- `remove` of a key that is not there returns false and changes nothing. Of a key that is there
  -- it returns true, without the key, or throws and changes nothing; and the file holds the
  -- object's members afterwards.
  pub remove-AllOrNothing :
      IsStored p s w.disk
      → (is_some (lookup key s.members) ≡ false
          → remove p s key w ≡ record { result = ok false; store = s; world = w })
        × (is_some (lookup key s.members) ≡ true
            → AllOrNothing p s w
                (record s { members = erase key s.members })
                true
                (remove p s key w))
        × IsStored p (remove p s key w).store (remove p s key w).world.disk
  unfolding remove
  remove-AllOrNothing old =
      let next = record s { members = erase key s.members } in
      let o = persist-Outcome p s.path next.members s.key s.env w in
      elim (Bool-cases (is_some (lookup key s.members))) [
        | inl there ↦ (
          λ h. cc,
          λ h. rw there (adopt-AllOrNothing p s next true refl w _ o),
          rw there (adopt-IsStored p s next true refl w _ old.fits o old),
        )
        | inr missing ↦ (λ h. rw missing, λ h. cc, rw missing old)
      ]

  pub commit_new_key-AllOrNothing :
      (env : Envelope)
      → IsEnvelope p.sodium env
      → IsStored p s w.disk
      → AllOrNothing p s w (record s { key = key; env = env }) tt (commit_new_key p s key env w)
        × IsStored p (commit_new_key p s key env w).store (commit_new_key p s key env w).world.disk
  unfolding commit_new_key
  commit_new_key-AllOrNothing env fits old =
      let next = record s { key = key; env = env } in
      let o = persist-Outcome p s.path s.members key env w in
      (adopt-AllOrNothing p s next tt refl w _ o, adopt-IsStored p s next tt refl w _ fits o old)
