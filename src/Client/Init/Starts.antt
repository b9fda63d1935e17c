-- ===== src/Client/Init/Starts.antt =====
-- A daemon starts on what init has left.
use secretov.Prelude.{
  ℕ, ◌+◌, ◌*◌, ◌^◌, ◌<◌, ◌≤◌, ◌≡◌, refl, none, ap, sym, subst, ◌∙◌, Bool, true, false, ◌||◌, ◌&&◌,
  arith, [], ◌∷◌, length, leb,
}
use secretov.Prelude.Text.{Text, is_empty, text_eq}
use secretov.Prelude.Result.{ok}
use secretov.Client.Init.{token_bytes, init_at}
use secretov.Client.Init.Ready.{IsTokenFile, init_at-IsReady}
use secretov.Daemon.Startup.{
  is_trailing, rstrip, rotate_after, needs_rotation, auto_rotate, usable_token, read_token, start,
}
use secretov.Files.{tmp_path}
use secretov.Files.Atomic.{read_file_string-some}
use secretov.Input.{Input, read_new_passphrase}
use secretov.Io.{World}
use secretov.Keys.Minting.{IsDrawn}
use secretov.Keys.Unlocking.{AllocSucceeds}
use secretov.Paths.{Paths}
use secretov.Platform.{Platform, SodiumLaws, JsonLaws}
use secretov.Store.{Store, open_store}
use secretov.Store.Create.{IsNew}
use secretov.Store.Reopen.{open_store-stored}

-- A lower-case hexadecimal digit.
abbrev pub is_hex_digit : ℕ → Bool
is_hex_digit c = leb 48 c && leb c 57 || leb 97 c && leb c 102

pub data AreHexDigits : Text → Type 0 where
  no_digits : AreHexDigits []
  digit_then : {c : ℕ} {s : Text} → is_hex_digit c ≡ true → AreHexDigits s → AreHexDigits (c ∷ s)

-- sodium_bin2hex writes two digits for each byte.
pub record BinToHexLaws (bin2hex : Text → Text) : Type 0 where
  pub digits : (raw : Text) → AreHexDigits (bin2hex raw)
  pub size : (raw : Text) → length (bin2hex raw) ≡ 2 * length raw

digit_kept : (c : ℕ) → is_hex_digit c ≡ true → is_trailing c ≡ false
unfolding is_trailing
digit_kept c h = ground (arith, h)

rstrip-digits : (s : Text) → AreHexDigits s → rstrip s ≡ s
unfolding rstrip
rstrip-digits [] no_digits = refl
rstrip-digits (c ∷ []) (digit_then d rest) = rw (digit_kept c d) refl
rstrip-digits (c ∷ e ∷ s) (digit_then d rest) = rw (rstrip-digits (e ∷ s) rest) refl

module _ (p : Platform) (bin2hex : Text → Text) (hex : BinToHexLaws bin2hex) where
  nonempty : (raw : Text) → length raw ≡ token_bytes → is_empty (bin2hex raw) ≡ false
  unfolding is_empty
  nonempty raw size = ground (arith, hex.size raw, size)

  usable :
      (path raw : Text)
      → length raw ≡ token_bytes
      → usable_token p path (ok (bin2hex raw)) ≡ ok (bin2hex raw)
  unfolding usable_token
  usable path raw size = rw (rstrip-digits (bin2hex raw) (hex.digits raw), nonempty raw size) refl

  read_token-raw :
      {path : Text} (since : ℕ) (w : World) (t : IsTokenFile p bin2hex since path w.disk)
      → read_token p path w ≡ (ok (bin2hex t.raw), w)
  unfolding read_token
  read_token-raw {path} since w t =
      rw (read_file_string-some p w t.on_disk, usable path t.raw t.size) refl

  auto_rotate-young :
      (s : Store p) (passphrase : Text) (now : ℕ) (w : World)
      → now ≤ s.env.key_created_at + rotate_after
      → auto_rotate p s passphrase now w ≡ (ok s, w)
  unfolding auto_rotate needs_rotation
  auto_rotate-young s passphrase now w young = ground (arith, young)

  module _ (box : SodiumLaws p.sodium) (laws : JsonLaws p.json) (alloc : AllocSucceeds p)
      (sodium_starts : p.sodium.init_fails ≡ false) where
    start-new :
        {path token_path passphrase : Text} {now later since : ℕ} {s : Store p} (socket : Text)
        (v : World)
        → IsNew p path passphrase now v.disk s
        → (t : IsTokenFile p bin2hex since token_path v.disk) → later ≤ now + rotate_after
        → start p path token_path socket false passphrase later v
          ≡ (ok (s, bin2hex t.raw), record v { calls = v.calls + 1 + 1 })
    unfolding start
    start-new {path} {token_path} {passphrase} {now} {later} {since} {s} socket v fresh t young =
        let v' = record v { calls = v.calls + 1 + 1 } in
        let opens : open_store p path passphrase v ≡ (ok s, v') =
          ap (λ path. open_store p path passphrase v) (sym fresh.placed)
          ∙ open_store-stored p box laws alloc v fresh.stored fresh.unlocked sodium_starts in
        let kept = auto_rotate-young s passphrase later v' (rw fresh.dated young) in
        rw (start, opens, kept, read_token-raw since v' t) refl

    -- A token file that is not the store's, and a key buffer that can always be allocated. Then init
    -- tells of success only where no store was before; and with what it leaves, a daemon that no
    -- other one is running beside starts within 30 days for the passphrase that init read. It
    -- serves an empty store under the token that the file holds, the encoding of 32 bytes that init
    -- drew from the random source, at a call not made before.
    pub init_at-start :
        (paths : Paths) (now later : ℕ) (input confirming : Input) (w v : World)
        → text_eq paths.token paths.store ≡ false
        → text_eq (tmp_path paths.token) paths.store ≡ false
        → now < 2 ^ 64
        → later ≤ now + rotate_after
        → (init_at p bin2hex paths input confirming now w).0.status ≡ 0
        → v.disk ≡ (init_at p bin2hex paths input confirming now w).1.disk
        → (passphrase : Text) × (raw : Text) × (s : Store p) × (read_new_passphrase input confirming
            ≡ ok passphrase)
          × (w.disk paths.store ≡ none)
          × IsDrawn p w.calls token_bytes raw
          × (length raw ≡ token_bytes)
          × (s.members ≡ [])
          × (start p paths.store paths.token paths.socket false passphrase later v
              ≡ (ok (s, bin2hex raw), record v { calls = v.calls + 1 + 1 }))
    init_at-start paths now later input confirming w v apart apart_tmp n young h same =
        let (passphrase, typed, ready) =
          init_at-IsReady p bin2hex box paths apart apart_tmp now n input confirming w h in
        let fresh =
          subst (λ disk. IsNew p paths.store passphrase now disk ready.store) (sym same)
            ready.is_new in
        let token = subst (IsTokenFile p bin2hex w.calls paths.token) (sym same) ready.token in
        (
          passphrase,
          token.raw,
          ready.store,
          typed,
          ready.was_absent,
          token.drawn,
          token.size,
          fresh.empty,
          start-new paths.socket v fresh token young,
        )
