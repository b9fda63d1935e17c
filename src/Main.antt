-- ===== src/Main.antt =====
-- The program's command line (src/main.cpp).
use secretov.Prelude.{ℕ, none, some, Bool, true, false, ◌||◌, List, [], ◌∷◌, if◌then◌else◌}
use secretov.Prelude.Map.{Map, lookup}
use secretov.Prelude.Result.{Result, ok, err}
use secretov.Prelude.Text.{Text, lit, text_eq}

pub data Command : Type 0 where
  init daemon list import rotate passwd tui get set delete exec : Command

abbrev pub commands : Map Command
commands =
    (lit "init", init)
    ∷ (lit "daemon", daemon)
    ∷ (lit "list", list)
    ∷ (lit "import", import)
    ∷ (lit "rotate", rotate)
    ∷ (lit "passwd", passwd)
    ∷ (lit "tui", tui)
    ∷ (lit "get", get)
    ∷ (lit "set", set)
    ∷ (lit "delete", delete)
    ∷ (lit "exec", exec)
    ∷ []

-- A command's status, or what it throws.
unfoldable pub status_of : Result Text ℕ → ℕ
status_of (ok status) = status
status_of (err what) = 1

-- `undumpable`: prctl(PR_SET_DUMPABLE) works. The arguments are those behind the program's name.
unfoldable pub main : Bool → List Text → (Command → List Text → Result Text ℕ) → ℕ
main false argv run = 1
main true [] run = 2
main true (cmd ∷ args) run =
    if text_eq cmd (lit "--help") || text_eq cmd (lit "-h")
    then 0
    else elim (lookup cmd commands) [ none ↦ 2 | some command ↦ status_of (run command args) ]
