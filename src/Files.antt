-- ===== src/Files.antt =====
-- Reading and replacing whole files: `read_file_string`, `ensure_parent_dir` and
-- `write_file_atomic` of src/paths.hpp.
pub mod Atomic
use secretov.Prelude.{
  ℕ, zero, suc, ◌+◌, Option, none, some, Bool, true, false, not, ◌&&◌, ◌||◌, List, [], ◌∷◌, ◌++◌,
  String, take, drop, if◌then◌else◌,
}
use secretov.Prelude.Text.{Text, lit, text_eq, rfind_byte}
use secretov.Prelude.Result.{Result, ok, err}
use secretov.Platform.{WriteCall, interrupted, failed, wrote, WriteAnswers, Platform}
use secretov.Io.{World, Io, pure, throw, report, ◌>>=◌, ◌>>◌}

abbrev pub Disk : Type 0
Disk = Text → Option Text

-- The disk with `path` written, or with `none` unlinked.
unfoldable pub set_file : Disk → Text → Option Text → Disk
set_file disk path contents q = if text_eq path q then contents else disk q

unfoldable pub tmp_path : Text → Text
tmp_path path = path ++ lit ".tmp"

-- The write loop: what the descriptor holds at its end, or `none` where ::write fails.
unfoldable pub write_all : List WriteCall → Text → Text → Option Text
write_all [] written left = some (written ++ left)
write_all (call ∷ calls) written [] = some written
write_all (interrupted ∷ calls) written (b ∷ left) = write_all calls written (b ∷ left)
write_all (failed ∷ calls) written (b ∷ left) = none
write_all (wrote n ∷ calls) written (b ∷ left) =
    write_all calls (written ++ take n (b ∷ left)) (drop n (b ∷ left))

-- ensure_parent_dir: the directory to make, for a path with a '/' behind its first byte.
unfoldable pub parent_to_make : Text → Option Text
parent_to_make path = elim (rfind_byte b'/' path) [
  | none ↦ none
  | some zero ↦ none
  | some (suc i) ↦ some (take (suc i) path)
]

-- std::filesystem::path::parent_path, with "." for none.
unfoldable pub parent_path : Text → Text
parent_path path = elim (rfind_byte b'/' path) [
  | none ↦ lit "."
  | some zero ↦ lit "/"
  | some (suc i) ↦ take (suc i) path
]

-- The calls up to the rename; each failure behind the creation unlinks the temporary file.
unfoldable pub replace_file : WriteAnswers → Text → Text → Text → Disk → Result Text Bool × Disk
unfolding set_file write_all
replace_file a why path contents disk =
    let tmp = tmp_path path in
    let cleared = set_file disk tmp none in
    let fail : Text → Result Text Bool × Disk =
      λ what. (err (what ++ lit " '" ++ tmp ++ lit "': " ++ why), cleared) in
    if a.create_fails then fail (lit "create") else elim (write_all a.writes [] contents) [
      | none ↦ fail (lit "write")
      | some held ↦
          if a.fsync_fails
          then fail (lit "fsync")
          else if a.close_fails
          then fail (lit "close")
          else if a.rename_fails
          then (err (lit "rename '" ++ tmp ++ lit "' -> '" ++ path ++ lit "': " ++ why), cleared)
          else (ok a.dir_sync_fails, set_file cleared path (some held))
    ]

unsynced_warning : Text → Text → Text
unsynced_warning path why =
    lit "secretov: warning: wrote '"
    ++ path
    ++ lit "' but could not fsync dir '"
    ++ parent_path path
    ++ lit "': "
    ++ why
    ++ lit " (a power loss may undo the write)"

module _ (p : Platform) where
  -- A failed directory fsync behind the rename is a warning, since the file is replaced by then.
  unfoldable pub write_file_atomic : Text → Text → Io (Unit {0})
  unfolding parent_to_make replace_file unsynced_warning
  write_file_atomic path contents w =
      let a = p.system.write_answers w.calls in
      let why = p.system.error_text w.calls in
      let w' = record w { calls = w.calls + 1 } in
      let (r, disk) = replace_file a why path contents w.disk in
      let written : Result Text (Unit {0}) × World = elim r [
        | err e ↦ (err e, record w' { disk = disk })
        | ok unsynced ↦ (
          ok tt,
          record w' {
            disk = disk;
            stderr = if unsynced then w.stderr ++ unsynced_warning path why ∷ [] else w.stderr;
          },
        )
      ] in
      elim (parent_to_make path) [
        | none ↦ written
        | some dir ↦
            if a.mkdir_fails then (err (lit "mkdir '" ++ dir ++ lit "': " ++ why), w') else written
      ]

  -- A file that is not there is an error. One that is there is taken to open and to be read whole.
  unfoldable pub read_file_string : Text → Io Text
  read_file_string path w = elim (w.disk path) [
    | none ↦ (err (lit "open '" ++ path ++ lit "': " ++ p.system.error_text w.calls), w)
    | some contents ↦ (ok contents, w)
  ]
