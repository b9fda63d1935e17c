-- ===== src/Daemon/Sound.antt =====
-- What a connection does to the store, whatever the peer sends.
use secretov.Prelude.{
  ℕ, ◌^◌, ◌<◌, ◌≡◌, refl, Option, none, some, true, false, ◌||◌, List, [], ◌∷◌, arith, inl, inr,
  Bool-cases, Option-cases, if◌then◌else◌,
}
use secretov.Prelude.Text.{Text, lit, text_eq, text_eq_iff, is_empty}
use secretov.Prelude.Result.{Result-cases}
use secretov.Platform.{Platform, SodiumLaws}
use secretov.Io.{World}
use secretov.Keys.Unlocking.{IsUnlockedBy}
use secretov.Protocol.{Request, parse_request}
use secretov.Store.{Store, Run}
use secretov.Store.Reopen.{IsStored}
use secretov.Store.Session.{
  Change, set_key, remove_key, rotate_key, new_passphrase, IsTimely, Session, change, IsSound,
  change-IsSound,
}
use secretov.Daemon.{token_matches, dispatch, guarded, Arrival, handle_line, serve_lines}
use secretov.Daemon.Rounds.{after_reply_keeps}

-- The change that a request asks for: none for the operations that read, for an unknown operation,
-- and where a field is missing.
unfoldable pub change_of : Request → ℕ → Option Change
change_of req now =
    if text_eq req.op (lit "set")
    then (if is_empty req.key then none else some (set_key req.key req.value))
    else if text_eq req.op (lit "delete")
    then (if is_empty req.key then none else some (remove_key req.key))
    else if text_eq req.op (lit "rotate")
    then (if is_empty req.old_pass then none else some (rotate_key req.old_pass now))
    else if text_eq req.op (lit "passwd")
    then (if is_empty req.old_pass || is_empty req.new_pass
        then none
        else some (new_passphrase req.old_pass req.new_pass now))
    else none

-- A text that is one name is not another.
other_name : (op a b : Text) → text_eq a b ≡ false → text_eq op a ≡ true → text_eq op b ≡ false
other_name op a b h e = rw ((text_eq_iff op a).0 e) h

names_differ :
    (text_eq (lit "get") (lit "set") ≡ false)
    × (text_eq (lit "get") (lit "delete") ≡ false)
    × (text_eq (lit "get") (lit "rotate") ≡ false)
    × (text_eq (lit "get") (lit "passwd") ≡ false)
    × (text_eq (lit "list") (lit "rotate") ≡ false)
    × (text_eq (lit "list") (lit "passwd") ≡ false)
    × (text_eq (lit "getprefix") (lit "rotate") ≡ false)
    × (text_eq (lit "getprefix") (lit "passwd") ≡ false)
unfolding text_eq lit
names_differ = (refl, refl, refl, refl, refl, refl, refl, refl)

module _ (p : Platform) where
  abbrev pub apply : Session p → Option Change → Session p
  apply t none = t
  apply t (some c) = change p t c

  -- A request changes the store and the world exactly by the change that it asks for, whatever the
  -- reply: not at all for `get`, `list`, `getprefix`, an unknown operation or a missing field.
  pub dispatch-change :
      (t : Session p) (req : Request) (now : ℕ)
      → ((dispatch p t.store req now t.world).store ≡ (apply t (change_of req now)).store)
        × ((dispatch p t.store req now t.world).world ≡ (apply t (change_of req now)).world)
  unfolding dispatch change_of change
  dispatch-change t req now =
      let d = names_differ in
      ground (
        arith,
        other_name req.op (lit "get") (lit "set") d.0,
        other_name req.op (lit "get") (lit "delete") d.1,
        other_name req.op (lit "get") (lit "rotate") d.2,
        other_name req.op (lit "get") (lit "passwd") d.3,
        other_name req.op (lit "list") (lit "rotate") d.4,
        other_name req.op (lit "list") (lit "passwd") d.5,
        other_name req.op (lit "getprefix") (lit "rotate") d.6,
        other_name req.op (lit "getprefix") (lit "passwd") d.7,
      )

  -- The files hold the store, and some passphrase unlocks it.
  abbrev pub IsHealthy : Store p → World → Type 0
  IsHealthy s w = (passphrase : Text) × IsStored p s w.disk × IsUnlockedBy p passphrase s.env s.key

  abbrev pub OnTime : List (Arrival p) → Type 0
  OnTime [] = Unit
  OnTime (a ∷ rest) = (a.now < 2 ^ 64) × OnTime rest

  change_of-IsTimely :
      (req : Request) (now : ℕ) (c : Change)
      → now < 2 ^ 64
      → change_of req now ≡ some c
      → IsTimely c
  unfolding change_of
  change_of-IsTimely req now (set_key k v) n e = tt
  change_of-IsTimely req now (remove_key k) n e = tt
  change_of-IsTimely req now (rotate_key o m) n e = ground arith
  change_of-IsTimely req now (new_passphrase o q m) n e = ground arith

  module _ (box : SodiumLaws p.sodium) where
    apply-IsHealthy :
        (t : Session p) (req : Request) (now : ℕ)
        → now < 2 ^ 64
        → IsSound p t
        → IsHealthy (apply t (change_of req now)).store (apply t (change_of req now)).world
    apply-IsHealthy t req now n h = elim (Option-cases (change_of req now)) [
      | inl e ↦ rw e (t.passphrase, h.stored, h.unlocked)
      | inr (c, e) ↦
          let h' = change-IsSound p box t c (change_of-IsTimely req now c n e) h in
          rw e ((change p t c).passphrase, h'.stored, h'.unlocked)
    ]

    dispatch-IsHealthy :
        (s : Store p) (req : Request) (now : ℕ) (w : World)
        → now < 2 ^ 64
        → IsHealthy s w
        → IsHealthy (dispatch p s req now w).store (dispatch p s req now w).world
    dispatch-IsHealthy s req now w n (passphrase, stored, unlocked) =
        let t : Session p = record { store = s; world = w; passphrase = passphrase } in
        let (same, same') = dispatch-change t req now in
        rw (same, same')
          (apply-IsHealthy t req now n (record { stored = stored; unlocked = unlocked }))

    guarded-IsHealthy :
        (req : Request) (run : Run p Text)
        → IsHealthy run.store run.world
        → IsHealthy (guarded p req run).store (guarded p req run).world
    unfolding guarded
    guarded-IsHealthy req run h = elim (Result-cases run.result) [
      | inl (reply, e) ↦ rw (e, guarded) h
      | inr (what, e) ↦ rw (e, guarded) h
    ]

    handle_line-IsHealthy :
        (expected : Text) (s : Store p) (a : Arrival p) (w : World)
        → a.now < 2 ^ 64
        → IsHealthy s w
        → IsHealthy (handle_line p expected s a w).store (handle_line p expected s a w).world
    unfolding handle_line
    handle_line-IsHealthy expected s a w n h = elim (Option-cases (parse_request p.json a.line)) [
      | inl e ↦ rw (e, handle_line) h
      | inr (req, e) ↦
          rw (e, handle_line)
            (elim (Bool-cases (token_matches expected req.token)) [
              | inl m ↦ rw m (guarded-IsHealthy req _ (dispatch-IsHealthy s req a.now w n h))
              | inr m ↦ rw m h
            ])
    ]

    -- Whatever a peer sends, and whatever the system answers: a store that its file holds and that
    -- a passphrase unlocks is one afterwards.
    pub serve_lines-IsHealthy :
        (expected : Text) (arrivals : List (Arrival p)) (s : Store p) (w : World)
        → OnTime arrivals
        → IsHealthy s w
        → IsHealthy
            (serve_lines p expected arrivals s w).store
            (serve_lines p expected arrivals s w).world
    unfolding serve_lines
    serve_lines-IsHealthy expected [] s w n h = h
    serve_lines-IsHealthy expected (a ∷ rest) s w n h =
        let h' = handle_line-IsHealthy expected s a w n.0 h in
        after_reply_keeps p IsHealthy (handle_line p expected s a w) _ _
          (serve_lines p expected rest) h' (serve_lines-IsHealthy expected rest _ _ n.1 h')
