-- ===== src/Manifest/Scopes.antt =====
-- The keys of the store: an environment, a project and a name, with '/' between them
-- (src/manifest.cpp).
pub mod Separate
pub mod Isolated
use secretov.Prelude.{Bool, ◌||◌, [], ◌∷◌, ◌++◌, is_some}
use secretov.Prelude.Result.{Result, ok, ◌>>◌, throw_if}
use secretov.Prelude.Text.{Text, lit, is_empty, find_byte}

unfoldable pub require_segment : Text → Text → Result Text (Unit {0})
require_segment s what =
    throw_if (is_empty s || is_some (find_byte b'/' s))
      (what ++ lit " must be non-empty and contain no '/': '" ++ s ++ lit "'")

unfoldable pub scoped_key : Text → Text → Text → Result Text Text
scoped_key env project name =
    require_segment env (lit "environment")
    >> require_segment project (lit "project")
    >> require_segment name (lit "secret name")
    >> ok (env ++ b'/' ∷ (project ++ b'/' ∷ name))

unfoldable pub scope_prefix : Text → Text → Result Text Text
scope_prefix env project =
    require_segment env (lit "environment")
    >> require_segment project (lit "project")
    >> ok (env ++ b'/' ∷ (project ++ b'/' ∷ []))
