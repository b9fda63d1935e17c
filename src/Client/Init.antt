-- ===== src/Client/Init.antt =====
-- The command init (src/client.cpp). Its paths and what is typed come in, and so does
-- sodium_bin2hex.
pub mod Ready
pub mod Starts
use secretov.Prelude.{ℕ, ◌+◌, none, some, [], ◌∷◌, ◌++◌, if◌then◌else◌}
use secretov.Prelude.Result.{Result, ok, err}
use secretov.Prelude.Text.{Text, lit}
use secretov.Client.Commands.{Exit, done}
use secretov.Files.{parent_to_make, write_file_atomic}
use secretov.Input.{Input, read_new_passphrase}
use secretov.Io.{World, Io, lift, ◌>>=◌, ◌>>◌}
use secretov.Keys.{random}
use secretov.Paths.{Paths}
use secretov.Platform.{Platform}
use secretov.Store.{create}

abbrev pub token_bytes : ℕ
token_bytes = 32

abbrev pub told : Paths → Exit
told paths = done (
    lit "secretov initialized"
    ∷ (lit "  store: " ++ paths.store)
    ∷ (lit "  token: " ++ paths.token)
    ∷ (lit "  socket: " ++ paths.socket)
    ∷ lit "Start the daemon with: secretov daemon"
    ∷ [])

module _ (p : Platform) (bin2hex : Text → Text) where
  -- The directories are not on the model's disk; making them is a call that can fail.
  unfoldable pub ensure_parent_dir : Text → Io (Unit {0})
  ensure_parent_dir path w =
      let w' = record w { calls = w.calls + 1 } in
      elim (parent_to_make path) [
        | none ↦ (ok tt, w)
        | some dir ↦
            if (p.system.write_answers w.calls).mkdir_fails
            then (err (lit "mkdir '" ++ (dir ++ (lit "': " ++ p.system.error_text w.calls))), w')
            else (ok tt, w')
      ]

  unfoldable pub mint_token : Text → Io (Unit {0})
  mint_token path = do raw ← random p token_bytes; write_file_atomic p path (bin2hex raw)

  unfoldable pub init_files : Paths → Text → ℕ → Io (Unit {0})
  init_files paths passphrase now = do
    ensure_parent_dir paths.store
    _ ← create p paths.store passphrase now
    mint_token paths.token

  unfoldable pub finish_init : Paths → Result Text (Unit {0}) × World → Exit × World
  finish_init paths (ok _, w) = (told paths, w)
  finish_init paths (err what, w) = (
    record { stdout = []; status = 1 },
    record w { stderr = w.stderr ++ (lit "secretov: init failed: " ++ what) ∷ [] },
  )

  unfoldable pub init_at : Paths → Input → Input → ℕ → World → Exit × World
  init_at paths input confirming now w = finish_init paths (
      (do passphrase ← lift (read_new_passphrase input confirming); init_files paths passphrase now)
        w)

  -- What resolving the paths throws is left to main.
  unfoldable pub cmd_init : Result Text Paths → Input → Input → ℕ → Io Exit
  cmd_init (err what) input confirming now w = (err what, w)
  cmd_init (ok paths) input confirming now w =
      let (exit, w') = init_at paths input confirming now w in (ok exit, w')
