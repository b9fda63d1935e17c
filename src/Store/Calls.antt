-- ===== src/Store/Calls.antt =====
-- The random source is asked at call numbers; making a store only raises the number.
use secretov.Prelude.{ℕ, ◌≤◌, arith, is_some, [], inl, inr, Bool-cases, Option-cases}
use secretov.Prelude.Text.{Text}
use secretov.Prelude.Map.{Map}
use secretov.Platform.{Platform}
use secretov.Io.{World, Io, lift, ◌>>=◌, outcome-cases}
use secretov.Files.{parent_to_make, write_file_atomic}
use secretov.Header.{Envelope}
use secretov.Keys.{
  alloc_guarded, derive_kdf_key, ensure_sodium, mint_data_key, mint_fresh_envelope, persist, random,
}
use secretov.Keys.Minting.{calls-alloc_guarded, calls-derive_kdf_key}
use secretov.Store.{create}

-- A call that only raises the number of calls.
abbrev pub Raises {ℓ} : {A : Type ℓ} → Io A → Type 0
Raises m = (w : World) → w.calls ≤ (m w).1.calls

bind-Raises {ℓ κ} :
    {A : Type ℓ} {B : Type κ} (m : Io A) (f : A → Io B)
    → Raises m
    → ((a : A) → Raises (f a))
    → Raises (m >>= f)
bind-Raises m f h k w = elim (outcome-cases (m w)) [
  | inl (a, w', e) ↦ rw e (omega (arith, rw e at (h w), k a w'))
  | inr (why, w', e) ↦ rw e (rw e at (h w))
]

module _ (p : Platform) where
  write_file_atomic-Raises : (path contents : Text) → Raises (write_file_atomic p path contents)
  unfolding write_file_atomic
  write_file_atomic-Raises path contents w = elim (Option-cases (parent_to_make path)) [
    | inl e ↦ ground arith
    | inr (dir, e) ↦ ground arith
  ]

  random-Raises : (n : ℕ) → Raises (random p n)
  unfolding random
  random-Raises n w = omega arith

  mint_data_key-Raises : (wrap_key : Text) (env : Envelope) → Raises (mint_data_key p wrap_key env)
  unfolding mint_data_key
  mint_data_key-Raises wrap_key env =
      bind-Raises (random p _) _ (random-Raises _)
        (λ data_key. bind-Raises (random p _) _ (random-Raises _) (λ wrap_nonce w. omega arith))

  persist-Raises :
      (path : Text) (members : Map p.json.Value) (key : Text) (env : Envelope)
      → Raises (persist p path members key env)
  unfolding persist
  persist-Raises path members key env =
      bind-Raises (lift _) _ (λ w. omega arith)
        (λ plaintext.
          bind-Raises (random p _) _ (random-Raises _)
            (λ payload_nonce. write_file_atomic-Raises path _))

  mint_fresh_envelope-Raises :
      (passphrase : Text) (ops mem now : ℕ) (env : Envelope)
      → Raises (mint_fresh_envelope p passphrase ops mem now env)
  unfolding mint_fresh_envelope
  mint_fresh_envelope-Raises passphrase ops mem now env =
      bind-Raises (random p _) _ (random-Raises _) (λ salt.
        bind-Raises (derive_kdf_key p passphrase salt ops mem) _
          (calls-derive_kdf_key p passphrase salt ops mem)
          (λ wrap_key.
            bind-Raises (alloc_guarded p) _ (calls-alloc_guarded p)
              (λ u. mint_data_key-Raises wrap_key _)))

  pub create-Raises : (path passphrase : Text) (now : ℕ) → Raises (create p path passphrase now)
  unfolding create
  create-Raises path passphrase now =
      bind-Raises (lift (ensure_sodium p)) _ (λ w. omega arith)
        (λ u w. elim (Bool-cases (is_some (w.disk path))) [
          | inl there ↦ rw there (omega arith)
          | inr fresh ↦ rw fresh (
              bind-Raises (mint_fresh_envelope p passphrase _ _ now _) _
                (mint_fresh_envelope-Raises passphrase _ _ now _)
                (λ made.
                  bind-Raises (persist p path [] made.0 made.1) _
                    (persist-Raises path [] made.0 made.1) (λ done w. omega arith))
                w)
        ])
