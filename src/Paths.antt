-- ===== src/Paths.antt =====
-- Where the files and the socket are (src/paths.hpp). The environment and what the system answers
-- are parameters.
pub mod Private
use secretov.Prelude.{
  ℕ, Option, none, some, Bool, true, false, not, ◌||◌, ◌==◌, ◌++◌, if◌then◌else◌,
}
use secretov.Prelude.Result.{Result, ok, err, ◌>>=◌, throw_if}
use secretov.Prelude.Text.{Text, lit, is_empty, to_string}

pub record Paths : Type 0 where
  pub store : Text
  pub token : Text
  pub registry : Text
  pub socket : Text

-- mkdir with a mode: the directory is made, something is there, or the error.
pub data MkdirAnswer : Type 0 where
  made existing : MkdirAnswer
  refused : Text → MkdirAnswer

-- What lstat tells of a directory; the mode is its lowest twelve bits.
pub record DirStat : Type 0 where
  pub is_directory : Bool
  pub uid : ℕ
  pub mode : ℕ

-- getenv, getuid, and the calls of resolve_paths.
pub record Process : Type 0 where
  pub getenv : Text → Option Text
  pub my_uid : ℕ
  pub mkdir : Text → ℕ → MkdirAnswer
  pub lstat : Text → Result Text DirStat

abbrev pub socket_file : Text
socket_file = lit "/secretov.sock"

-- 0700
abbrev pub private_mode : ℕ
private_mode = 448

module _ (process : Process) where
  -- A variable that is set and not empty.
  unfoldable pub variable : Text → Option Text
  variable name = elim (process.getenv name) [
    | none ↦ none
    | some v ↦ if is_empty v then none else some v
  ]

  unfoldable pub home_dir : Result Text Text
  home_dir = elim (variable (lit "HOME")) [
    | none ↦ err (lit "HOME is not set; cannot resolve default paths")
    | some home ↦ ok home
  ]

  unfoldable pub xdg_dir_or_home : Text → Text → Result Text Text
  xdg_dir_or_home xdg_var home_suffix = elim (variable xdg_var) [
    | some dir ↦ ok dir
    | none ↦ do home ← home_dir; ok (home ++ home_suffix)
  ]

  unfoldable pub is_private_dir : DirStat → Bool
  is_private_dir st =
      not (not st.is_directory || (not (st.uid == process.my_uid) || not (st.mode == private_mode)))

  unfoldable pub fallback_dir : Text
  fallback_dir = lit "/tmp/secretov-" ++ to_string process.my_uid

  -- The directory that is there already.
  unfoldable pub require_private : Text → Result Text (Unit {0})
  require_private dir = elim (process.lstat dir) [
    | err why ↦ err (lit "stat '" ++ (dir ++ (lit "': " ++ why)))
    | ok st ↦
        throw_if (not (is_private_dir st))
          (lit "insecure socket dir '" ++ (dir ++ lit "': must be a 0700 dir owned by our uid"))
  ]

  unfoldable pub make_private : Text → Result Text (Unit {0})
  make_private dir = elim (process.mkdir dir private_mode) [
    | made ↦ ok tt
    | existing ↦ require_private dir
    | refused why ↦ err (lit "mkdir '" ++ (dir ++ (lit "': " ++ why)))
  ]

  unfoldable pub socket_path : Result Text Text
  socket_path = elim (variable (lit "XDG_RUNTIME_DIR")) [
    | some runtime ↦ ok (runtime ++ socket_file)
    | none ↦ do _ ← make_private fallback_dir; ok (fallback_dir ++ socket_file)
  ]

  unfoldable pub resolve_paths : Result Text Paths
  resolve_paths = do
    data_dir ← xdg_dir_or_home (lit "XDG_DATA_HOME") (lit "/.local/share")
    config_dir ← xdg_dir_or_home (lit "XDG_CONFIG_HOME") (lit "/.config")
    socket ← socket_path
    ok (record {
      store = data_dir ++ lit "/secretov/store";
      token = config_dir ++ lit "/secretov/token";
      registry = config_dir ++ lit "/secretov/projects.yaml";
      socket = socket;
    })
