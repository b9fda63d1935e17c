-- ===== src/Manifest/Files.antt =====
-- Reading a manifest or the registry from the file system, and the search for a manifest upward
-- (src/manifest.cpp). What the file system answers is a parameter.
pub mod Vetted
pub mod Nearest
use secretov.Prelude.{
  ℕ, zero, suc, ◌<◌, Option, none, some, Bool, true, false, not, ◌==◌, List, [], ◌∷◌, ◌++◌, length,
  if◌then◌else◌, ◌≡◌, ◌⊎◌,
}
use secretov.Prelude.Result.{Result, ok, err, ◌>>=◌, ◌>>◌, throw_if}
use secretov.Prelude.Text.{Text, lit, is_empty, text_eq}
use secretov.Manifest.Document.{manifest_file_name, parse_manifest}
use secretov.Manifest.Parse.{Manifest}
use secretov.Manifest.Trust.{Stat, Accounts, require_trusted}
use secretov.Manifest.Yaml.{Yaml}

pub record Node : Type 0 where
  pub stat : Stat
  pub is_directory : Bool
  pub is_regular : Bool

-- One ::read of the open file; without an answer it is at its end.
pub data Chunk : Type 0 where
  interrupted : Chunk
  chunk : Text → Chunk
  failed : Text → Chunk
  ended : Chunk

-- The open file: fstat, and the reads.
pub record Opened : Type 0 where
  pub fstat : Result Text Node
  pub chunks : List Chunk

-- The calls of std::filesystem and of the system, with the text of each error. `parent_path` and
-- `same_path` are those of std::filesystem::path.
pub record FileSystem : Type 0 where
  pub canonical : Text → Result Text Text
  pub parent_path : Text → Text
  pub same_path : Text → Text → Bool
  pub in_directory : Text → Text → Text
  pub stat : Text → Result Text Node
  pub open_file : Text → Result Text Opened
  pub writable : Text → Result Text (Unit {0})
  pub is_there : Text → Bool
  -- exists(symlink_status(path)): a dangling link is there as well
  pub link_is_there : Text → Bool

unfoldable pub read_chunks : List Chunk → Result Text Text
read_chunks [] = ok []
read_chunks (interrupted ∷ chunks) = read_chunks chunks
read_chunks (ended ∷ chunks) = ok []
read_chunks (failed why ∷ chunks) = err why
read_chunks (chunk bytes ∷ chunks) = do rest ← read_chunks chunks; ok (bytes ++ rest)

unfoldable pub describe {ℓ} : {A : Type ℓ} → Text → Text → Result Text A → Result Text A
describe call path (ok a) = ok a
describe call path (err why) = err (call ++ (lit " '" ++ (path ++ (lit "': " ++ why))))

module _ (a : Accounts) (fs : FileSystem) where
  unfoldable pub require_trusted_dir : Text → Text → Result Text Text
  require_trusted_dir dir noun = do
    let dir_path = if is_empty dir then lit "." else dir
    node ← describe (lit "stat") dir_path (fs.stat dir_path)
    _ ←
        throw_if (not node.is_directory)
          (noun ++ (lit " directory '" ++ (dir_path ++ lit "' is not a directory")))
    _ ← require_trusted a dir_path node.stat noun true
    ok dir_path

  unfoldable pub read_opened : Text → Text → Opened → Result Text Text
  read_opened path noun file = do
    node ← describe (lit "stat") path file.fstat
    _ ←
        throw_if (not node.is_regular)
          (noun ++ (lit " '" ++ (path ++ lit "' is not a regular file")))
    _ ← require_trusted a path node.stat noun false
    describe (lit "read") path (read_chunks file.chunks)

  -- The directory of a symbolic link's target.
  unfoldable pub require_trusted_target : Text → Text → Text → Result Text (Unit {0})
  require_trusted_target path real noun =
      if not (fs.same_path real path)
      then (do _ ← require_trusted_dir (fs.parent_path real) noun; ok tt)
      else ok tt

  unfoldable pub read_manifest_text : Text → Text → Result Text Text
  read_manifest_text path noun = do
    real ← describe noun path (fs.canonical path)
    _ ← require_trusted_dir (fs.parent_path path) noun
    _ ← require_trusted_target path real noun
    file ← describe (lit "open") path (fs.open_file real)
    read_opened path noun file

  unfoldable pub load_manifest : Yaml → Text → Result Text Manifest
  load_manifest y path = do
    text ← read_manifest_text path (lit "manifest")
    parse_manifest y text path

  unfoldable pub require_creatable_manifest_dir : Text → Result Text (Unit {0})
  require_creatable_manifest_dir manifest_path = do
    dir_path ← require_trusted_dir (fs.parent_path manifest_path) (lit "manifest")
    describe (lit "cannot create a manifest in") dir_path (fs.writable dir_path)

  -- A directory of our own.
  unfoldable pub is_owned : Text → Bool
  is_owned dir = elim (fs.stat dir) [ err why ↦ false | ok node ↦ node.stat.uid == a.my_uid ]

  -- The outer none: the fuel ran out.
  unfoldable pub find_upward : ℕ → Text → Option (Option Text)
  find_upward zero dir = none
  find_upward (suc fuel) dir =
      let candidate = fs.in_directory dir manifest_file_name in
      let parent = fs.parent_path dir in
      let rest = find_upward fuel parent in
      if not (is_owned dir)
      then some none
      else if fs.link_is_there candidate
      then some (some candidate)
      else if fs.same_path parent dir
      then some none
      else rest

  unfoldable pub find_manifest_upward : Text → Option (Option Text)
  find_manifest_upward start_dir = find_upward (suc (length start_dir)) start_dir
