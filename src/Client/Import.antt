-- ===== src/Client/Import.antt =====
-- secretov import (cmd_import of src/client.cpp): where the manifest is, and the order of the
-- checks, the daemon's requests and the edit of the manifest.
pub mod Sets
pub mod Ordered
pub mod Command
use secretov.Prelude.{
  Option, none, some, Bool, not, ◌&&◌, List, [], ◌∷◌, ◌++◌, map, is_nil, is_some, if◌then◌else◌,
}
use secretov.Prelude.Map.{Map, lookup}
use secretov.Prelude.Result.{Result, ok, err, ◌>>=◌, throw_if}
use secretov.Prelude.Text.{Text, lit, text_eq}
use secretov.Client.ImportOptions.{ImportArgs}
use secretov.Client.Plan.{ScopeArgs, is_local, resolve_env}
use secretov.Files.{read_file_string, write_file_atomic}
use secretov.Io.{World, Io}
use secretov.Manifest.Document.{manifest_file_name, parse_manifest}
use secretov.Manifest.Dotenv.{parse_dotenv}
use secretov.Manifest.Edit.{manifest_with_entries}
use secretov.Manifest.Parse.{KeyValues, Manifest}
use secretov.Manifest.Scopes.{scoped_key, scope_prefix}
use secretov.Manifest.Trust.{join}
use secretov.Manifest.Yaml.{Yaml}
use secretov.Platform.{Platform}

-- The registry's root for -p, then the nearest manifest, then a new one here; and the project,
-- where it is named. What the look-ups give comes in.
unfoldable pub manifest_place :
    Option Text → Result Text (Option Text) → Option Text → Text → Result Text (Text × Text)
manifest_place none registered found here = elim found [
  | some path ↦ ok (path, [])
  | none ↦ err (
      lit "no "
      ++ (manifest_file_name
          ++ lit " found from the current directory upward; pass -p NAME to create one here"))
]
manifest_place (some project) registered found here = do
  root ← registered
  elim root [
    | some dir ↦ ok (dir ++ (lit "/" ++ manifest_file_name), project)
    | none ↦ elim found [
      | some path ↦ ok (path, project)
      | none ↦ ok (here ++ (lit "/" ++ manifest_file_name), project)
    ]
  ]

-- The manifest that is there, its text, and the path that a write goes to.
pub record Base : Type 0 where
  pub manifest : Option Manifest
  pub text : Text
  pub project : Text
  pub write_path : Text

unfoldable pub require_project : Option Text → Text → Manifest → Result Text (Unit {0})
require_project none path m = ok tt
require_project (some project) path m = throw_if (not (text_eq m.project project)) (
    lit "manifest "
    ++ (path
        ++ (lit " names project '" ++ (m.project ++ (lit "', not '" ++ (project ++ lit "'"))))))

module _ (y : Yaml) where
  -- `existing`: what read_manifest_text gives, where something is at the path; `canonical`: its
  -- target.
  unfoldable pub manifest_base :
      Option Text → Text → Text → Option (Result Text Text) → Text → Result Text Base
  manifest_base asked path project none canonical =
      ok (record { manifest = none; text = []; project = project; write_path = path })
  manifest_base asked path project (some existing) canonical = do
    text ← existing
    m ← parse_manifest y text path
    _ ← require_project asked path m
    _ ← throw_if (not (is_local m.backend.type)) (
        lit
          "import is local-only for now; add entries to .secretov.yaml by hand, then 'secretov set ENTRY -p NAME -e ENV'")
    ok (record { manifest = some m; text = text; project = m.project; write_path = canonical })

-- The daemon's requests that import makes, on the state behind the daemon, and check_request of a
-- set. What they throw is its text.
pub record Server (σ : Type 0) : Type 0 where
  pub set : Text → Text → σ → Result Text (Unit {0}) × σ
  pub get_prefix : Text → σ → Result Text (Map Text)
  pub check_set : Text → Text → Result Text (Unit {0})

-- The keys of the pairs that the store has.
unfoldable pub collisions : Text → Text → Map Text → KeyValues → Result Text (List Text)
collisions env project existing [] = ok []
collisions env project existing ((var, value) ∷ pairs) = do
  key ← scoped_key env project var
  later ← collisions env project existing pairs
  ok (if is_some (lookup key existing) then key ∷ later else later)

-- What is caught around a request of one variable.
unfoldable pub of_var {ℓ} : {A : Type ℓ} → Text → Text → Result Text A → Result Text A
of_var var behind (ok a) = ok a
of_var var behind (err what) = err (var ++ (lit ": " ++ (what ++ behind)))

unfoldable pub already_stored : List Text → Text
already_stored stored =
    if is_nil stored
    then []
    else lit "; manifest not updated; already stored (rerun with --overwrite once fixed):\n  "
      ++ join stored (lit "\n  ")

abbrev pub to_itself : KeyValues → KeyValues
to_itself = map (λ (pair : Text × Text). (pair.0, pair.0))

module _ {σ : Type 0} (server : Server σ) (env project : Text) where
  unfoldable pub check_all : KeyValues → Result Text (Unit {0})
  check_all [] = ok tt
  check_all ((var, value) ∷ pairs) = do
    _ ←
        of_var var (lit "; nothing imported")
          (scoped_key env project var >>= λ key. server.check_set key value)
    check_all pairs

  -- `stored`: the keys set so far.
  unfoldable pub set_all : KeyValues → List Text → σ → Result Text (Unit {0}) × σ
  set_all [] stored s = (ok tt, s)
  set_all ((var, value) ∷ pairs) stored s = elim (scoped_key env project var) [
    | err what ↦ (err what, s)
    | ok key ↦
        let reply = server.set key value s in
        elim reply.0 [
          | err what ↦ (of_var var (already_stored stored) (err what), reply.1)
          | ok _ ↦ set_all pairs (stored ++ (key ∷ [])) reply.1
        ]
  ]

-- What cmd_import has found out before it talks to the daemon.
pub record Import : Type 0 where
  pub env : Text
  pub overwrite : Bool
  pub file : Text
  pub base : Base
  -- require_creatable_manifest_dir of the write path
  pub creatable : Result Text (Unit {0})

-- The look-ups of cmd_import in the file system: read_manifest_text of a path where something is
-- there, its canonical path, and require_creatable_manifest_dir.
pub record Site : Type 0 where
  pub registered : Result Text (Option Text)
  pub found : Option Text
  pub here : Text
  pub existing : Text → Option (Result Text Text)
  pub canonical : Text → Text
  pub creatable : Text → Result Text (Unit {0})

-- `override`: SECRETOV_ENV.
unfoldable pub prepare_import : Yaml → Site → Option Text → ImportArgs → Result Text Import
prepare_import y site override args = do
  place ← manifest_place args.scope.project site.registered site.found site.here
  base ←
      manifest_base y args.scope.project place.0 place.1 (site.existing place.0)
        (site.canonical place.0)
  env ← resolve_env args.scope override base.manifest
  ok (record {
    env = env;
    overwrite = args.overwrite;
    file = elim args.file [ none ↦ lit ".env" | some file ↦ file ];
    base = base;
    creatable = site.creatable base.write_path;
  })

-- The state behind the daemon, the world, and what is thrown, if anything; none: all is imported.
pub record Imported (σ : Type 0) : Type 0 where
  pub state : σ
  pub world : World
  pub thrown : Option Text

abbrev ends : {σ : Type 0} → σ → World → Text → Imported σ
ends s w what = record { state = s; world = w; thrown = some what }

unfoldable pub warned : World → List Text → World
warned w warnings = record w { stderr = w.stderr ++ warnings }

module _ (p : Platform) (y : Yaml) {σ : Type 0} (server : Server σ) (i : Import) where
  -- The checks, on pairs of the file; they give the new text of the manifest.
  unfoldable pub checked_text : KeyValues → σ → Result Text Text
  checked_text pairs s = do
    _ ← throw_if (is_nil pairs) (lit "nothing to import from " ++ i.file)
    prefix ← scope_prefix i.env i.base.project
    existing ← server.get_prefix prefix s
    present ← collisions i.env i.base.project existing pairs
    _ ←
        throw_if (not (is_nil present) && not i.overwrite)
          (lit "already in store (pass --overwrite to replace):\n  " ++ join present (lit "\n  "))
    _ ← check_all server i.env i.base.project pairs
    new_text ← manifest_with_entries y i.base.text i.base.project i.env (to_itself pairs)
    _ ← if text_eq new_text i.base.text then ok tt else i.creatable
    ok new_text

  -- Behind the sets: the manifest is written if it changes.
  unfoldable pub write_back : Text → Result Text (Unit {0}) × σ → World → Imported σ
  write_back new_text (err what, s) w = ends s w what
  write_back new_text (ok _, s) w =
      if text_eq new_text i.base.text
      then record { state = s; world = w; thrown = none }
      else let written = write_file_atomic p i.base.write_path new_text w in
        elim written.0 [
          | err what ↦ ends s written.1 what
          | ok _ ↦ record { state = s; world = written.1; thrown = none }
        ]

  unfoldable pub import_pairs : KeyValues → σ → World → Imported σ
  import_pairs pairs s w = elim (checked_text pairs s) [
    | err what ↦ ends s w what
    | ok new_text ↦ write_back new_text (set_all server i.env i.base.project pairs [] s) w
  ]

  unfoldable pub import_parsed : Result Text KeyValues → σ → World → Imported σ
  import_parsed (err what) s w = ends s w what
  import_parsed (ok pairs) s w = import_pairs pairs s w

  -- The dotenv file is read and parsed first; the parser's warnings are told at once.
  unfoldable pub import : σ → World → Imported σ
  import s w =
      let contents = read_file_string p i.file w in
      elim contents.0 [
        | err what ↦ ends s contents.1 what
        | ok text ↦
            let parsed = parse_dotenv text in import_parsed parsed.1 s (warned contents.1 parsed.0)
      ]
