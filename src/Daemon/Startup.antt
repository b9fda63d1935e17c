-- ===== src/Daemon/Startup.antt =====
-- What `run_daemon` does before it listens: the store is opened, an old key is rotated, and the
-- token is read.
use secretov.Prelude.{
  ℕ, ◌+◌, ◌-◌, ◌*◌, ◌≤◌, ◌≡◌, ap, Bool, true, false, ◌&&◌, ◌||◌, [], ◌∷◌, ◌++◌, arith, ltb, ◌==◌,
  inl, inr, Bool-cases, if◌then◌else◌,
}
use secretov.Prelude.Text.{Text, lit, is_empty, to_string}
use secretov.Prelude.Result.{Result, ok, err}
use secretov.Platform.{Platform}
use secretov.Files.{read_file_string}
use secretov.Io.{World, Io, pure, throw, ◌>>=◌, outcome-cases}
use secretov.Keys.{random, mint_data_key}
use secretov.Store.{
  Store, Run, open_store, rotate, commit_minted, mint_rotation, commit_new_key, adopt,
}

-- rstrip of src/paths.hpp
unfoldable pub is_trailing : ℕ → Bool
is_trailing c = c == b'\n' || c == b'\r' || c == b' ' || c == b'\t'

unfoldable pub rstrip : Text → Text
unfolding is_trailing
rstrip [] = []
rstrip (c ∷ s) = elim (rstrip s) [
  | [] ↦ if is_trailing c then [] else c ∷ []
  | d ∷ rest ↦ c ∷ d ∷ rest
]

abbrev pub rotate_after_days : ℕ
rotate_after_days = 30

abbrev pub rotate_after : ℕ
rotate_after = rotate_after_days * 24 * 3600

unfoldable pub needs_rotation : ℕ → ℕ → Bool
needs_rotation now created = ltb created now && ltb rotate_after (now - created)

module _ (p : Platform) where
  abbrev relabel {ℓ} : {A : Type ℓ} → Text → Text → Result Text A → Result Text A
  relabel before behind (ok a) = ok a
  relabel before behind (err e) = err (before ++ e ++ behind)

  abbrev rewrap {ℓ} : {A : Type ℓ} → Text → Text → Io A → Io A
  rewrap before behind m w = (relabel before behind (m w).0, (m w).1)

  rotated : Run p (Unit {0}) → Result Text (Store p) × World
  rotated run = elim run.result [
    | err e ↦ (err (lit "auto-rotation failed: " ++ e), run.world)
    | ok _ ↦ (
      ok run.store,
      record run.world {
        stderr =
            run.world.stderr
            ++ (lit "secretov: key older than "
                ++ to_string rotate_after_days
                ++ lit " days; rotated on unlock")
              ∷ [];
      },
    )
  ]

  unfoldable pub auto_rotate : Store p → Text → ℕ → Io (Store p)
  unfolding rotated needs_rotation
  auto_rotate s passphrase now w =
      if needs_rotation now s.env.key_created_at
      then rotated (rotate p s passphrase now w)
      else (ok s, w)

  unfoldable pub usable_token : Text → Result Text Text → Result Text Text
  usable_token path (err e) = err (
      lit "cannot read token file '"
      ++ path
      ++ lit "': "
      ++ e
      ++ lit "\n  (run 'secretov init' first)")
  usable_token path (ok contents) =
      if is_empty (rstrip contents)
      then err (lit "token file '" ++ path ++ lit "' is empty")
      else ok (rstrip contents)

  unfoldable pub read_token : Text → Io Text
  unfolding usable_token
  read_token path w =
      (usable_token path (read_file_string p path w).0, (read_file_string p path w).1)

  -- `running`: something answers at the socket already.
  unfoldable pub start : Text → Text → Text → Bool → Text → ℕ → Io (Store p × Text)
  start store_path token_path socket running passphrase now =
      if running then throw (lit "daemon already running at " ++ socket) else do
        opened ←
            rewrap (lit "cannot open store: ")
              (lit "\n  (run 'secretov init' first, or check your passphrase)")
              (open_store p store_path passphrase)
        s ← auto_rotate opened passphrase now
        token ← read_token token_path
        pure (s, token)

  rotate-dated :
      (s : Store p) (passphrase : Text) (now : ℕ) (w : World)
      → (rotate p s passphrase now w).result ≡ ok tt
      → (rotate p s passphrase now w).store.env.key_created_at ≡ now
  unfolding rotate commit_minted mint_rotation commit_new_key adopt mint_data_key random
  rotate-dated s passphrase now w h = ground arith

  -- The key is at most 30 days old at `now`, or dated no earlier than `now`.
  abbrev pub IsCurrent : ℕ → ℕ → Type 0
  IsCurrent now created = now ≤ created + rotate_after

  auto_rotate-IsCurrent :
      (s : Store p) (passphrase : Text) (now : ℕ) (w : World) {t : Store p}
      → (auto_rotate s passphrase now w).0 ≡ ok t
      → IsCurrent now t.env.key_created_at
  unfolding auto_rotate
  auto_rotate-IsCurrent s passphrase now w {t} h =
      elim (Bool-cases (needs_rotation now s.env.key_created_at)) [
        | inl due ↦ old (rw due at h)
        | inr young ↦ ground arith
      ]
    where
      old : (rotated (rotate p s passphrase now w)).0 ≡ ok t → IsCurrent now t.env.key_created_at
      old e = ground (arith, rotate-dated s passphrase now w)

  read_token-nonempty :
      (path : Text) (w : World) {token : Text}
      → (read_token path w).0 ≡ ok token
      → is_empty token ≡ false
  unfolding read_token
  read_token-nonempty path w h = ground arith

  -- A daemon that starts serves a store whose key is at most 30 days old (or dated no earlier than
  -- the clock), under a token that is not empty; and none starts while another one answers.
  pub start-IsCurrent :
      (store_path token_path socket : Text) (running : Bool) (passphrase : Text) (now : ℕ)
      (w : World) (s : Store p) (token : Text)
      → (start store_path token_path socket running passphrase now w).0 ≡ ok (s, token)
      → (running ≡ false) × IsCurrent now s.env.key_created_at × (is_empty token ≡ false)
  unfolding start
  start-IsCurrent store_path token_path socket true passphrase now w s token h = cc
  start-IsCurrent store_path token_path socket false passphrase now w s token h =
      elim (outcome-cases (open_store p store_path passphrase w)) [
        | inr (e, w₁, i) ↦ cc (rw i at h)
        | inl (s₁, w₁, i) ↦ elim (outcome-cases (auto_rotate s₁ passphrase now w₁)) [
          | inr (e, w₂, j) ↦ cc (rw (i, j) at h)
          | inl (s₂, w₂, j) ↦ elim (outcome-cases (read_token token_path w₂)) [
            | inr (e, w₃, k) ↦ cc (rw (i, j, k) at h)
            | inl (t, w₃, k) ↦
                let h' : ◌≡◌ {A = Result Text (Store p × Text)} (ok (s₂, t)) (ok (s, token)) =
                  rw (i, j, k) at h in
                ground (
                  arith,
                  h',
                  auto_rotate-IsCurrent s₁ passphrase now w₁ (ap (λ r. r.0) j),
                  read_token-nonempty token_path w₂ (ap (λ r. r.0) k),
                )
          ]
        ]
      ]
