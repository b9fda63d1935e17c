-- ===== src/Store/Session.antt =====
-- Any sequence of changes leaves a file that opens as the object in memory.
use secretov.Prelude.{
  ℕ, ◌^◌, ◌<◌, ◌≡◌, refl, ap, false, List, [], ◌∷◌, ◌⊎◌, inl, inr, is_some, Bool-cases,
}
use secretov.Prelude.Text.{Text}
use secretov.Prelude.Map.{lookup}
use secretov.Prelude.Result.{Result, ok, err}
use secretov.Platform.{Platform, SodiumLaws, JsonLaws}
use secretov.Io.{World}
use secretov.Keys.Unlocking.{AllocSucceeds, IsUnlockedBy}
use secretov.Store.{Store, Run, set, remove, rotate, change_passphrase, open_store}
use secretov.Store.Changes.{AllOrNothing, set-AllOrNothing, remove-AllOrNothing}
use secretov.Store.Rekey.{IsRekeyed, IsRefused, rotate-outcome, change_passphrase-outcome}
use secretov.Store.Reopen.{IsStored, open_store-stored}

-- A change that the daemon asks of the store.
pub data Change : Type 0 where
  set_key : Text → Text → Change
  remove_key : Text → Change
  rotate_key : Text → ℕ → Change
  new_passphrase : Text → Text → ℕ → Change

-- The clock of the change fits its 64 bits.
abbrev pub IsTimely : Change → Type 0
IsTimely (rotate_key passphrase now) = now < 2 ^ 64
IsTimely (new_passphrase old new now) = now < 2 ^ 64
IsTimely _ = Unit

abbrev pub AreTimely : List Change → Type 0
AreTimely [] = Unit
AreTimely (c ∷ cs) = IsTimely c × AreTimely cs

module _ (p : Platform) where
  -- The object, the world, and the passphrase of the last key change that returned.
  pub record Session : Type 0 where
    pub store : Store p
    pub world : World
    pub passphrase : Text

  abbrev after : {A : Type 0} → Run p A → Text → Session
  after run passphrase = record { store = run.store; world = run.world; passphrase = passphrase }

  -- The passphrase that counts behind a key change.
  abbrev current : Result Text (Unit {0}) → Text → Text → Text
  current (ok _) old new = new
  current (err _) old new = old

  -- One change; a throw ends only the change.
  unfoldable pub change : Session → Change → Session
  change t (set_key k v) = after (set p t.store k v t.world) t.passphrase
  change t (remove_key k) = after (remove p t.store k t.world) t.passphrase
  change t (rotate_key passphrase now) =
      let run = rotate p t.store passphrase now t.world in
      after run (current run.result t.passphrase passphrase)
  change t (new_passphrase old new now) =
      let run = change_passphrase p t.store old new now t.world in
      after run (current run.result t.passphrase new)

  unfoldable pub run_session : Session → List Change → Session
  run_session t [] = t
  run_session t (c ∷ cs) = run_session (change t c) cs

  pub record IsSound (t : Session) : Type 0 where
    pub stored : IsStored p t.store t.world.disk
    pub unlocked : IsUnlockedBy p t.passphrase t.store.env t.store.key

  members_change-unlocked :
      {A : Type 0} {passphrase : Text} {s : Store p} (w : World) (next : Store p) {x : A}
      (run : Run p A)
      → next.env ≡ s.env
      → next.key ≡ s.key
      → AllOrNothing p s w next x run
      → IsUnlockedBy p passphrase s.env s.key
      → IsUnlockedBy p passphrase run.store.env run.store.key
  members_change-unlocked w next run e k (inl (_, h)) u = rw (h, e, k) u
  members_change-unlocked w next run e k (inr (_, _, h, _)) u = rw h u

  module _ (box : SodiumLaws p.sodium) where
    remove-unlocked :
        (t : Session) (k : Text)
        → IsSound t
        → IsUnlockedBy p t.passphrase
            (remove p t.store k t.world).store.env
            (remove p t.store k t.world).store.key
    remove-unlocked t k h =
        let (missing, there, _) = remove-AllOrNothing p t.store k t.world h.stored in
        elim (Bool-cases (is_some (lookup k t.store.members))) [
          | inl e ↦
              members_change-unlocked t.world _ (remove p t.store k t.world) refl refl (there e)
                h.unlocked
          | inr e ↦ rw (missing e) h.unlocked
        ]

    rekey-unlocked :
        {old new passphrase : Text} {now : ℕ} {s : Store p} {w : World} (run : Run p (Unit {0}))
        → IsRekeyed p old new now s w run ⊎ IsRefused p s w run
        → IsUnlockedBy p passphrase s.env s.key
        → IsUnlockedBy p (current run.result passphrase new) run.store.env run.store.key
    rekey-unlocked run (inl h) u = rw (h.returned, current) h.unlocked
    rekey-unlocked run (inr h) u = rw (h.threw, current) (rw h.same_store u)

    pub change-IsSound : (t : Session) (c : Change) → IsTimely c → IsSound t → IsSound (change t c)
    unfolding change
    change-IsSound t (set_key k v) n h =
        let (all, kept) = set-AllOrNothing p t.store k t.world v h.stored in
        record {
          stored = kept;
          unlocked =
              members_change-unlocked t.world _ (set p t.store k v t.world) refl refl all
                h.unlocked;
        }
    change-IsSound t (remove_key k) n h =
        let (_, _, kept) = remove-AllOrNothing p t.store k t.world h.stored in
        record { stored = kept; unlocked = remove-unlocked t k h }
    change-IsSound t (rotate_key passphrase now) n h =
        let (o, kept) = rotate-outcome p box t.store passphrase now t.world h.stored n in
        record { stored = kept; unlocked = rekey-unlocked _ o h.unlocked }
    change-IsSound t (new_passphrase old new now) n h =
        let (o, kept) = change_passphrase-outcome p box t.store old new now t.world h.stored n in
        record { stored = kept; unlocked = rekey-unlocked _ o h.unlocked }

    pub run_session-IsSound :
        (t : Session) (cs : List Change) → AreTimely cs → IsSound t → IsSound (run_session t cs)
    unfolding run_session
    run_session-IsSound t [] n h = h
    run_session-IsSound t (c ∷ cs) n h =
        run_session-IsSound (change t c) cs n.1 (change-IsSound t c n.0 h)

    -- From a sound session, after any changes, each of which may return or throw whatever the
    -- system answers, opening the file with the passphrase of the last key change that returned
    -- gives exactly the object in memory, where the system grants the key buffers.
    pub run_session-reopens :
        (laws : JsonLaws p.json) (t : Session) (cs : List Change)
        → AreTimely cs
        → IsSound t
        → AllocSucceeds p
        → p.sodium.init_fails ≡ false
        → (open_store p
            (run_session t cs).store.path
            (run_session t cs).passphrase
            (run_session t cs).world).0
          ≡ ok (run_session t cs).store
    run_session-reopens laws t cs n h alloc init =
        let h' = run_session-IsSound t cs n h in
        ap (λ r. r.0)
          (open_store-stored p box laws alloc (run_session t cs).world h'.stored h'.unlocked init)
