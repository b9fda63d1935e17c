-- ===== src/Client/Import/Command.antt =====
-- cmd_import of src/client.cpp as a whole: its status, and what it tells of an exception.
use secretov.Prelude.{
  ℕ, arith, ◌≡◌, refl, Option, none, some, false, List, [], ◌∷◌, ◌++◌, inl, inr, Option-cases,
}
use secretov.Prelude.Result.{Result, ok, err, Result-cases}
use secretov.Prelude.Text.{Text, lit}
use secretov.Client.Import.{Import, Imported, Server, Site, prepare_import, import}
use secretov.Client.ImportOptions.{ImportArgs, an_option, parse_import_args}
use secretov.Io.{World}
use secretov.Manifest.Yaml.{Yaml}
use secretov.Platform.{Platform}

-- The status, or what is left to main; the state behind the daemon; and the world.
pub record Ended (σ : Type 0) : Type 0 where
  pub status : Result Text ℕ
  pub state : σ
  pub world : World

abbrev no_options : ImportArgs
no_options = record {
  scope = record { project = none; env = none };
  overwrite = false;
  file = none;
}

abbrev reported : World → Text → World
reported w what = record w { stderr = w.stderr ++ (lit "secretov import: " ++ what) ∷ [] }

-- An exception is told, and the status is 1.
unfoldable pub finish_import : {σ : Type 0} → Imported σ → Ended σ
finish_import done = elim done.thrown [
  | none ↦ record { status = ok 0; state = done.state; world = done.world }
  | some what ↦ record { status = ok 1; state = done.state; world = reported done.world what }
]

module _ (p : Platform) (y : Yaml) {σ : Type 0} (server : Server σ) where
  unfoldable pub import_prepared : Result Text Import → σ → World → Ended σ
  import_prepared (err what) s w = record { status = ok 1; state = s; world = reported w what }
  import_prepared (ok i) s w = finish_import (import p y server i s w)

  -- `resolved`: the look-ups below the resolved paths, or what resolving them throws.
  unfoldable pub import_parsed_args :
      Result Text Site → Option Text → Result Text ImportArgs → σ → World → Ended σ
  import_parsed_args resolved override (err what) s w = record {
    status = ok 2;
    state = s;
    world = reported w what;
  }
  import_parsed_args (err what) override (ok args) s w = record {
    status = err what;
    state = s;
    world = w;
  }
  import_parsed_args (ok site) override (ok args) s w =
      import_prepared (prepare_import y site override args) s w

  unfoldable pub cmd_import : Result Text Site → Option Text → List Text → σ → World → Ended σ
  cmd_import resolved override argv s w =
      import_parsed_args resolved override (parse_import_args an_option argv no_options) s w

module _ (p : Platform) (y : Yaml) {σ : Type 0} (server : Server σ) where
  -- An import that ended without an exception, and all that was known before it.
  record IsDone (resolved : Result Text Site) (override : Option Text) (argv : List Text) (s : σ)
      (w : World) (e : Ended σ) : Type 0 where
    args : ImportArgs
    site : Site
    i : Import
    parsed : parse_import_args an_option argv no_options ≡ ok args
    found : resolved ≡ ok site
    prepared : prepare_import y site override args ≡ ok i
    no_exception : (import p y server i s w).thrown ≡ none
    same_state : e.state ≡ (import p y server i s w).state
    same_world : e.world ≡ (import p y server i s w).world

  -- The status of import is 0 only if its arguments and its scope were good and nothing was thrown.
  cmd_import-IsDone :
      (resolved : Result Text Site) (override : Option Text) (argv : List Text) (s : σ) (w : World)
      → (cmd_import p y server resolved override argv s w).status ≡ ok 0
      → IsDone resolved override argv s w (cmd_import p y server resolved override argv s w)
  unfolding cmd_import import_parsed_args import_prepared finish_import
  cmd_import-IsDone resolved override argv s w h =
      elim (Result-cases (parse_import_args an_option argv no_options)) [
        | inr (what, e) ↦ ground (arith, h, e)
        | inl (args, e) ↦ elim (Result-cases resolved) [
          | inr (what, f) ↦ cc (rw (e, f) at h)
          | inl (site, f) ↦ elim (Result-cases (prepare_import y site override args)) [
            | inr (what, g) ↦ ground (arith, rw (e, f, g) at h)
            | inl (i, g) ↦ elim (Option-cases (import p y server i s w).thrown) [
              | inr (what, t) ↦ ground (arith, rw (e, f, g, t) at h)
              | inl t ↦ record {
                args = args;
                site = site;
                i = i;
                parsed = e;
                found = f;
                prepared = g;
                no_exception = t;
                same_state = rw (cmd_import, e, f, g, t) refl;
                same_world = rw (cmd_import, e, f, g, t) refl;
              }
            ]
          ]
        ]
      ]
