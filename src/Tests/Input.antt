-- ===== src/Tests/Input.antt =====
-- A passphrase typed at a terminal, and the paths of a user without a session.
use secretov.Prelude.{◌≡◌, refl, none, some, true, false, [], ◌∷◌, if◌then◌else◌}
use secretov.Prelude.Result.{ok}
use secretov.Prelude.Text.{lit, text_eq, is_empty, to_string}
use secretov.Input.{interrupted, byte, Input, drain_over}
use secretov.Paths.{
  Paths, Process, existing, variable, home_dir, xdg_dir_or_home, is_private_dir, fallback_dir,
  require_private, make_private, socket_path, resolve_paths,
}
use secretov.Paths.Private.{IsGuardedSocket, resolve_paths-IsGuardedSocket}

abbrev typed : Input
typed = record {
  on_tty = true;
  in_background = false;
  echo_disabled = true;
  peeks = true;
  bytes = byte 112 ∷ interrupted ∷ byte 119 ∷ byte 13 ∷ byte 10 ∷ byte 120 ∷ [];
  queue = drain_over ∷ [];
}

abbrev process : Process
process = record {
  getenv = λ name. if text_eq name (lit "HOME") then some (lit "/h") else none;
  my_uid = 5;
  mkdir = λ dir mode. existing;
  lstat = λ dir. ok (record { is_directory = true; uid = 5; mode = 448 });
}

abbrev paths : Paths
paths = record {
  store = lit "/h/.local/share/secretov/store";
  token = lit "/h/.config/secretov/token";
  registry = lit "/h/.config/secretov/projects.yaml";
  socket = lit "/tmp/secretov-5/secretov.sock";
}

paths_resolved : resolve_paths process ≡ ok paths
unfolding resolve_paths xdg_dir_or_home home_dir variable socket_path make_private require_private
    is_private_dir fallback_dir to_string text_eq is_empty lit
paths_resolved = refl

resolve_paths-IsGuardedSocket_example : IsGuardedSocket process paths.socket
resolve_paths-IsGuardedSocket_example = resolve_paths-IsGuardedSocket process paths paths_resolved
