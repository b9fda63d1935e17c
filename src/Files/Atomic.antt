-- ===== src/Files/Atomic.antt =====
-- A whole-file write happens completely or not at all, for each way that its system calls can end.
use secretov.Prelude.{
  ◌≡◌, ap, ◌∙◌, none, some, Bool, true, false, List, [], ◌∷◌, ◌++◌, arith, take, drop, append_assoc,
  append-nil, take-append-drop, if◌then◌else◌, ◌⊎◌, inl, inr, Option-cases,
}
use secretov.Prelude.Text.{Text, lit, text_eq, text_eq_iff, text_eq_refl, text_eq-append_self}
use secretov.Prelude.Result.{ok}
use secretov.Platform.{WriteCall, interrupted, failed, wrote, WriteAnswers, Platform}
use secretov.Io.{World, is_ok}
use secretov.Files.{Disk, tmp_path, write_all, replace_file, read_file_string, write_file_atomic}

-- A write loop that ends has written what it was given, after any interruptions and short writes.
pub write_all_complete :
    (calls : List WriteCall) (written left : Text) {held : Text}
    → write_all calls written left ≡ some held
    → held ≡ written ++ left
unfolding write_all
write_all_complete [] written left h = ground arith
write_all_complete (call ∷ calls) written [] h = rw append-nil (ground arith)
write_all_complete (interrupted ∷ calls) written (b ∷ left) h =
    write_all_complete calls written (b ∷ left) h
write_all_complete (failed ∷ calls) written (b ∷ left) h = cc
write_all_complete (wrote n ∷ calls) written (b ∷ left) h =
    write_all_complete calls (written ++ take n (b ∷ left)) (drop n (b ∷ left)) h
    ∙ append_assoc written (take n (b ∷ left)) (drop n (b ∷ left))
    ∙ ap (◌++◌ written) (take-append-drop n (b ∷ left))

write_all-cases :
    (calls : List WriteCall) (contents : Text)
    → (write_all calls [] contents ≡ none) ⊎ (write_all calls [] contents ≡ some contents)
write_all-cases calls contents = elim (Option-cases (write_all calls [] contents)) [
  | inl e ↦ inl e
  | inr (held, e) ↦ inr (e ∙ ap some (write_all_complete calls [] contents e))
]

pub tmp_path-ne : (path : Text) → text_eq (tmp_path path) path ≡ false
unfolding tmp_path lit
tmp_path-ne path = text_eq-append_self path (lit ".tmp") (omega arith)

-- What a write of `contents` to `path` from `before` leaves on the disk.
pub record IsAtomic (path contents : Text) (before after : Disk) (success : Bool) : Type 0 where
  pub target : after path ≡ (if success then some contents else before path)
  pub others :
      (q : Text) → text_eq path q ≡ false → text_eq (tmp_path path) q ≡ false → after q ≡ before q
  pub no_leftover : success ≡ true → after (tmp_path path) ≡ none

module _ (a : WriteAnswers) (why path contents : Text) (disk : Disk) where
  replace_file-IsAtomic :
      IsAtomic path contents disk
        (replace_file a why path contents disk).1
        (is_ok (replace_file a why path contents disk).0)
  unfolding replace_file
  replace_file-IsAtomic = record {
    target = ground (arith, tmp_path-ne path, text_eq_refl path, write_all-cases a.writes contents);
    others = λ q h k. ground arith;
    no_leftover = λ s.
        ground
          (arith, tmp_path-ne path, text_eq_refl (tmp_path path), text_eq_iff path (tmp_path path));
  }

module _ (p : Platform) (path contents : Text) (w : World) where
  -- Whatever the system answers to each call: after a `write_file_atomic` that returns the file at
  -- the path holds the new contents, and after one that throws it is as before; no file but it and
  -- the temporary one changes; and a write that returns leaves no temporary file.
  pub write_file_atomic-IsAtomic :
      IsAtomic path contents w.disk
        (write_file_atomic p path contents w).1.disk
        (is_ok (write_file_atomic p path contents w).0)
  unfolding write_file_atomic
  write_file_atomic-IsAtomic =
      let a = p.system.write_answers w.calls in
      let i = replace_file-IsAtomic a (p.system.error_text w.calls) path contents w.disk in
      record {
        target = ground (arith, i.target);
        others = λ q h k. ground (arith, i.others q h k);
        no_leftover = λ s. ground (arith, i.no_leftover);
      }

module _ (p : Platform) {path contents : Text} (w : World) where
  pub read_file_string-some :
      w.disk path ≡ some contents → read_file_string p path w ≡ (ok contents, w)
  unfolding read_file_string
  read_file_string-some h = rw (h, read_file_string)
