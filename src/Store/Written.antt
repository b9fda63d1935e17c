-- ===== src/Store/Written.antt =====
-- A new store object behind the write of its file, as `Store::create` and `Store::open` end.
use secretov.Prelude.{◌≡◌, refl, ◌⊎◌, inl, inr}
use secretov.Prelude.Text.{Text}
use secretov.Prelude.Map.{Map}
use secretov.Prelude.Result.{Result, ok, err}
use secretov.Platform.{Platform}
use secretov.Io.{World, Io, pure, ◌>>◌, outcome-cases}
use secretov.Header.{Envelope, IsEnvelope}
use secretov.Keys.{persist}
use secretov.Keys.Persist.{persist-Outcome}
use secretov.Store.{Store}
use secretov.Store.Reopen.{IsStored}

module _ (p : Platform) (path : Text) (members : Map p.json.Value) (key : Text)
    (env : Envelope) where
  abbrev pub new_store : Store p
  new_store = record { path = path; members = members; key = key; env = env }

  abbrev pub written : Io (Store p)
  written = do persist p path members key env; pure new_store

  -- The file holds the store, or the call threw with the file at the path as before.
  abbrev pub WritesStore : World → Result Text (Store p) × World → Type 0
  WritesStore w r =
      ((r.0 ≡ ok new_store) × IsStored p new_store r.1.disk)
      ⊎ ((e : Text) × (r.0 ≡ err e) × (r.1.disk path ≡ w.disk path))

  pub written-WritesStore : IsEnvelope p.sodium env → (w : World) → WritesStore w (written w)
  written-WritesStore fits w =
      let o = persist-Outcome p path members key env w in
      elim (outcome-cases (persist p path members key env w)) [
        | inl (_, w', h) ↦ rw h (elim (rw h at o) [
          | inl (_, held) ↦ inl (refl, record { fits = fits; written = held })
          | inr (e, b, _) ↦ cc
        ])
        | inr (e, w', h) ↦
            rw h (elim (rw h at o) [ inl (b, _) ↦ cc | inr (_, _, same) ↦ inr (e, refl, same) ])
      ]
