-- ===== src/Store/Minting.antt =====
-- The keys that `rotate` and `change_passphrase` make before they write, on every branch.
use secretov.Prelude.{
  ℕ, ◌+◌, ◌^◌, ◌≤◌, ◌<◌, ◌≡◌, refl, ap, ◌∙◌, some, arith, max, ◌⊎◌, inl, inr, length, Bool-cases,
}
use secretov.Prelude.Text.{Text, lit, is_empty}
use secretov.Prelude.Result.{Result, ok, err}
use secretov.Platform.{Platform, SodiumLaws}
use secretov.Io.{World, outcome-cases}
use secretov.Header.{Envelope, no_envelope, IsEnvelope}
use secretov.Keys.{
  bytes_from, random, alloc_guarded, derive_kdf_key, unwrap, mint_data_key, mint_fresh_envelope,
}
use secretov.Keys.Minting.{
  IsDrawn, calls-alloc_guarded, calls-derive_kdf_key, calls-unwrap, disk-alloc_guarded,
  disk-derive_kdf_key, derive_kdf_key-eq_ok, disk-unwrap, unwrap-eq_ok, mint_data_key-Minted,
}
use secretov.Keys.Persist.{length-bytes_from}
use secretov.Keys.Unlocking.{IsUnlockedBy}
use secretov.Store.{Store, mint_rotation, mint_passphrase}

module _ (p : Platform) where
  -- A key and an envelope made at `now` for a passphrase, with the given KDF parameters.
  -- The key was drawn at random, at a call from number `since` on.
  pub record IsFresh (passphrase : Text) (now ops mem since : ℕ) (key : Text) (next : Envelope)
      : Type 0 where
    pub drawn : IsDrawn p since p.sodium.key_bytes key
    pub unlocked : IsUnlockedBy p passphrase next key
    pub dated : next.key_created_at ≡ now
    pub params : (next.opslimit ≡ ops) × (next.memlimit ≡ mem)
    pub fits : IsEnvelope p.sodium next

  -- The same from a store that `old` unlocks, with KDF parameters no weaker than before.
  pub record IsMintedFor (old new : Text) (now since : ℕ) (before : Envelope) (key : Text)
      (next : Envelope) : Type 0 where
    pub drawn : IsDrawn p since p.sodium.key_bytes key
    pub proved : (k : Text) × IsUnlockedBy p old before k
    pub unlocked : IsUnlockedBy p new next key
    pub dated : next.key_created_at ≡ now
    pub no_weaker : (before.opslimit ≤ next.opslimit) × (before.memlimit ≤ next.memlimit)
    pub fits : IsEnvelope p.sodium next

  -- No file changed, and the call threw or returned a key and an envelope for which `Q` holds.
  abbrev pub Mints :
      (Text → Envelope → Type 0) → World → Result Text (Text × Envelope) × World → Type 0
  Mints Q w r =
      (r.1.disk ≡ w.disk)
      × (((e : Text) × (r.0 ≡ err e))
          ⊎ ((key : Text) × (next : Envelope) × (r.0 ≡ ok (key, next)) × Q key next))

  abbrev pub MintFacts :
      Text → Text → ℕ → Envelope → World → Result Text (Text × Envelope) × World → Type 0
  MintFacts old new now before w = Mints (IsMintedFor old new now w.calls before) w

  Mints-proved :
      {old new : Text} {now ops mem : ℕ} {before : Envelope} (w : World)
      (r : Result Text (Text × Envelope) × World)
      → (k : Text) × IsUnlockedBy p old before k
      → (before.opslimit ≤ ops) × (before.memlimit ≤ mem)
      → Mints (IsFresh new now ops mem w.calls) w r
      → MintFacts old new now before w r
  Mints-proved w r proved weak (d, inl e) = (d, inl e)
  Mints-proved w r proved weak (d, inr (key, next, e, m)) = (
    d,
    inr (
      key,
      next,
      e,
      record {
        drawn = m.drawn;
        proved = proved;
        unlocked = m.unlocked;
        dated = m.dated;
        no_weaker = omega (arith, m.params, weak);
        fits = m.fits;
      },
    ),
  )

  abbrev InRange : ℕ → ℕ → Type 0
  InRange ops mem =
      (p.sodium.opslimit_min ≤ ops)
      × (ops ≤ p.sodium.opslimit_sensitive)
      × (p.sodium.memlimit_min ≤ mem)
      × (mem ≤ p.sodium.memlimit_sensitive)

  module _ (box : SodiumLaws p.sodium) where
    -- A data key wrapped under the key that a passphrase derives is unlocked by that passphrase.
    pub mint_data_key-Mints :
        (passphrase : Text) (base : Envelope) (wrap_key : Text) (w₀ w : World)
        → w.disk ≡ w₀.disk
        → w₀.calls ≤ w.calls
        → p.sodium.pwhash passphrase base.salt base.opslimit base.memlimit ≡ some wrap_key
        → length base.salt ≡ p.sodium.salt_bytes
        → InRange base.opslimit base.memlimit
        → base.key_created_at < 2 ^ 64
        → Mints
            (IsFresh passphrase base.key_created_at base.opslimit base.memlimit w₀.calls)
            w₀
            (mint_data_key p wrap_key base w)
    mint_data_key-Mints passphrase base wrap_key w₀ w d later h salt (o, o', m, m') n =
        let minted = mint_data_key-Minted p wrap_key base w in
        (
          minted.same_disk ∙ d,
          inr (
            minted.key,
            record base {
              wrap_nonce = minted.nonce;
              wrapped_key = p.sodium.secretbox minted.key minted.nonce wrap_key;
            },
            minted.returned,
            record {
              drawn = (w.calls, later, minted.drawn);
              unlocked = record {
                wrap_key = wrap_key;
                derives = h;
                unwraps = box.open-secretbox minted.key minted.nonce wrap_key;
              };
              dated = refl;
              params = (refl, refl);
              fits = record {
                salt_size = salt;
                nonce_size = minted.nonce_size;
                wrapped_size =
                    omega (
                      arith,
                      minted.key_size,
                      box.length-secretbox minted.key minted.nonce wrap_key,
                    );
                ops_range = (o, o');
                mem_range = (m, m');
                words = omega (arith, box.opslimit_order, box.memlimit_order);
              };
            },
          ),
        )

    -- A fresh envelope is unlocked by the passphrase that it was minted for.
    pub mint_fresh_envelope-Mints :
        (passphrase : Text) (ops mem now : ℕ) (w₀ w : World)
        → w.disk ≡ w₀.disk
        → w₀.calls ≤ w.calls
        → InRange ops mem
        → now < 2 ^ 64
        → Mints
            (IsFresh passphrase now ops mem w₀.calls)
            w₀
            (mint_fresh_envelope p passphrase ops mem now no_envelope w)
    unfolding mint_fresh_envelope random
    mint_fresh_envelope-Mints passphrase ops mem now w₀ w d later range n =
        let salt : Text = bytes_from (p.system.random_byte w.calls) p.sodium.salt_bytes in
        let w₁ : World = record w { calls = w.calls + 1 } in
        let d₁ = disk-derive_kdf_key p passphrase salt ops mem w₁ in
        let l₁ = calls-derive_kdf_key p passphrase salt ops mem w₁ in
        let base : Envelope = record no_envelope {
          salt = salt;
          opslimit = ops;
          memlimit = mem;
          key_created_at = now;
        } in
        elim (outcome-cases (derive_kdf_key p passphrase salt ops mem w₁)) [
          | inr (e, w₂, h) ↦ rw h ((rw h at d₁) ∙ d, inl (e, refl))
          | inl (wrap_key, w₂, h) ↦
              let d₂ = disk-alloc_guarded p w₂ in
              let l₂ = calls-alloc_guarded p w₂ in
              let derives = derive_kdf_key-eq_ok p passphrase salt ops mem w₁ (ap (λ r. r.0) h) in
              rw h (elim (outcome-cases (alloc_guarded p w₂)) [
                | inr (e, w₃, k) ↦ rw k ((rw k at d₂) ∙ (rw h at d₁) ∙ d, inl (e, refl))
                | inl (_, w₃, k) ↦ rw k (
                    mint_data_key-Mints passphrase base wrap_key w₀ w₃
                      ((rw k at d₂) ∙ (rw h at d₁) ∙ d)
                      (omega (arith, later, rw h at l₁, rw k at l₂)) derives
                      (length-bytes_from (p.system.random_byte w.calls) p.sodium.salt_bytes) range
                      n)
              ])
        ]

    pub mint_rotation-facts :
        (s : Store p) (passphrase : Text) (now : ℕ) (w : World)
        → now < 2 ^ 64
        → IsEnvelope p.sodium s.env
        → MintFacts passphrase passphrase now s.env w (mint_rotation p s passphrase now w)
    unfolding mint_rotation
    mint_rotation-facts s passphrase now w n fits =
        let msg = lit "wrong passphrase" in
        let d = disk-unwrap p s.env passphrase msg w in
        let l = calls-unwrap p s.env passphrase msg w in
        elim (outcome-cases (unwrap p s.env passphrase msg w)) [
          | inr (e, w₁, h) ↦ rw h (rw h at d, inl (e, refl))
          | inl (u, w₁, h) ↦
              let (derives, unwraps) = unwrap-eq_ok p s.env passphrase msg w (ap (λ r. r.0) h) in
              let d₁ : w₁.disk ≡ w.disk = rw h at d in
              let d₂ = disk-alloc_guarded p w₁ in
              let l₂ = calls-alloc_guarded p w₁ in
              rw h (elim (outcome-cases (alloc_guarded p w₁)) [
                | inr (e, w₂, k) ↦ rw k ((rw k at d₂) ∙ d₁, inl (e, refl))
                | inl (_, w₂, k) ↦ rw k (
                    Mints-proved w
                      (mint_data_key p u.wrap_key (record s.env { key_created_at = now }) w₂)
                      (
                        u.data_key,
                        record { wrap_key = u.wrap_key; derives = derives; unwraps = unwraps },
                      )
                      (omega arith)
                      (mint_data_key-Mints passphrase (record s.env { key_created_at = now })
                        u.wrap_key w w₂ ((rw k at d₂) ∙ d₁) (omega (arith, rw h at l, rw k at l₂))
                        derives fits.salt_size (omega (arith, fits.ops_range, fits.mem_range)) n))
              ])
        ]

    pub mint_passphrase-facts :
        (s : Store p) (old new : Text) (now : ℕ) (w : World)
        → now < 2 ^ 64
        → IsEnvelope p.sodium s.env
        → MintFacts old new now s.env w (mint_passphrase p s old new now w)
    unfolding mint_passphrase
    mint_passphrase-facts s old new now w n fits =
        let msg = lit "wrong passphrase" in
        let d = disk-unwrap p s.env old msg w in
        let l = calls-unwrap p s.env old msg w in
        elim (Bool-cases (is_empty new)) [
          | inl b ↦ rw b (refl, inl (lit "empty passphrase", refl))
          | inr b ↦ rw b (elim (outcome-cases (unwrap p s.env old msg w)) [
            | inr (e, w₁, h) ↦ rw h (rw h at d, inl (e, refl))
            | inl (u, w₁, h) ↦
                let (derives, unwraps) = unwrap-eq_ok p s.env old msg w (ap (λ r. r.0) h) in
                rw h (
                  Mints-proved w
                    (mint_fresh_envelope p new (max s.env.opslimit p.sodium.opslimit_moderate)
                      (max s.env.memlimit p.sodium.memlimit_moderate) now no_envelope w₁)
                    (
                      u.data_key,
                      record { wrap_key = u.wrap_key; derives = derives; unwraps = unwraps },
                    )
                    (omega arith, omega arith)
                    (mint_fresh_envelope-Mints new (max s.env.opslimit p.sodium.opslimit_moderate)
                      (max s.env.memlimit p.sodium.memlimit_moderate) now w w₁ (rw h at d)
                      (rw h at l)
                      (omega (
                        arith, box.opslimit_order, box.memlimit_order, fits.ops_range,
                        fits.mem_range,
                      ))
                      n))
          ])
        ]
