-- ===== src/Manifest/Edit/Kept.antt =====
-- An edit keeps the manifest's lines.
use secretov.Prelude.{
  ◌≡◌, refl, subst, ℕ, suc, Option, none, some, List, [], ◌∷◌, ◌++◌, take, drop, length,
  take-append-drop,
}
use secretov.Prelude.Result.{ok, Ensures, returned, any, Ensures-bind, holds}
use secretov.Prelude.Text.{Text, lit}
use secretov.Manifest.Blocks.{find_child, insert_lines, ensure_key, ensure_block}
use secretov.Manifest.Document.{parse_manifest}
use secretov.Manifest.Edit.{
  check_names, first_step, or_header, added_entries, edited_lines, check_edit,
  manifest_with_entries,
}
use secretov.Manifest.Lines.{split_lines, join_lines}
use secretov.Manifest.Parse.{KeyValues}
use secretov.Manifest.Scopes.{require_segment}
use secretov.Manifest.Yaml.{Yaml}

-- The lines of the first list stand in the second in their order; what is between them is added.
pub data IsKept : List Text → List Text → Type 0 where
  nothing : IsKept [] []
  kept : {ls ms : List Text} (line : Text) → IsKept ls ms → IsKept (line ∷ ls) (line ∷ ms)
  added : {ls ms : List Text} (line : Text) → IsKept ls ms → IsKept ls (line ∷ ms)

IsKept-refl : (ls : List Text) → IsKept ls ls
IsKept-refl [] = nothing
IsKept-refl (line ∷ ls) = kept line (IsKept-refl ls)

IsKept-trans : {ls ms ns : List Text} → IsKept ls ms → IsKept ms ns → IsKept ls ns
IsKept-trans nothing k = k
IsKept-trans h (added line k) = added line (IsKept-trans h k)
IsKept-trans (kept line h) (kept _ k) = kept line (IsKept-trans h k)
IsKept-trans (added line h) (kept _ k) = added line (IsKept-trans h k)

IsKept-prepend : (xs : List Text) {ls ms : List Text} → IsKept ls ms → IsKept ls (xs ++ ms)
IsKept-prepend [] h = h
IsKept-prepend (x ∷ xs) h = added x (IsKept-prepend xs h)

IsKept-append : (xs : List Text) {ls ms : List Text} → IsKept ls ms → IsKept (xs ++ ls) (xs ++ ms)
IsKept-append [] h = h
IsKept-append (x ∷ xs) h = kept x (IsKept-append xs h)

IsKept-insert_lines : (at : ℕ) (xs lines : List Text) → IsKept lines (insert_lines at xs lines)
unfolding insert_lines
IsKept-insert_lines at xs lines =
    subst (λ l. IsKept l (take at lines ++ (xs ++ drop at lines))) (take-append-drop at lines)
      (IsKept-append (take at lines) (IsKept-prepend xs (IsKept-refl (drop at lines))))

IsKept-ensure_key :
    (lines : List Text) (begin end indent : ℕ) (key : Text) (found : Option ℕ)
    → IsKept lines (ensure_key lines begin end indent key found).0
unfolding ensure_key
IsKept-ensure_key lines begin end indent key (some key_line) = IsKept-refl lines
IsKept-ensure_key lines begin end indent key none = IsKept-insert_lines _ _ lines

ensure_block-IsKept :
    (lines : List Text) (begin end indent step : ℕ) (key : Text)
    → Ensures (λ made. IsKept lines made.0) (ensure_block lines begin end indent step key)
unfolding ensure_block
ensure_block-IsKept lines begin end indent step key =
    Ensures-bind (any (find_child lines begin end indent key))
      λ found _. returned _ (IsKept-ensure_key lines begin end indent key found)

or_header-IsKept : (lines : List Text) (project : Text) → IsKept lines (or_header lines project)
or_header-IsKept [] project = added _ (added _ (added _ nothing))
or_header-IsKept (line ∷ lines) project = IsKept-refl (line ∷ lines)

edited_lines-IsKept :
    (split : List Text) (project env : Text) (name_to_var : KeyValues)
    → Ensures (IsKept split) (edited_lines split project env name_to_var)
unfolding edited_lines
edited_lines-IsKept split project env name_to_var =
    Ensures-bind
      (ensure_block-IsKept (or_header split project) 0 (length (or_header split project)) 0
        (first_step split) (lit "env"))
      λ root rooted.
        Ensures-bind
          (ensure_block-IsKept root.0 (suc root.1.key_line) root.1.end root.1.entry_indent
            (first_step split) env)
          λ frame framed.
            Ensures-bind
              (ensure_block-IsKept frame.0 (suc frame.1.key_line) frame.1.end frame.1.entry_indent
                (first_step split) (lit "secrets"))
              λ hold held. Ensures-bind (any (added_entries hold.0 hold.1 _ name_to_var)) λ xs _.
                returned _ (
                  IsKept-trans (or_header-IsKept split project) (
                    IsKept-trans rooted
                      (IsKept-trans framed (IsKept-trans held (IsKept-insert_lines _ xs hold.0)))))

-- The text that an edit returns is made of lines among which all lines of the old text stand,
-- unchanged and in their order: an edit only adds lines, so it loses no comment.
pub manifest_with_entries-IsKept :
    (y : Yaml) (text project env : Text) (name_to_var : KeyValues) {out : Text}
    → manifest_with_entries y text project env name_to_var ≡ ok out
    → (lines : List Text) × (out ≡ join_lines lines) × IsKept (split_lines text) lines
unfolding manifest_with_entries
manifest_with_entries-IsKept y text project env name_to_var {out} =
    holds
      {P = λ out. (lines : List Text) × (out ≡ join_lines lines) × IsKept (split_lines text) lines}
      (Ensures-bind (any (require_segment env (lit "environment"))) λ _ _.
        Ensures-bind (any (check_names name_to_var)) λ _ _.
          Ensures-bind (edited_lines-IsKept (split_lines text) project env name_to_var) λ lines k.
            Ensures-bind (any (parse_manifest y (join_lines lines) (lit "<edited manifest>")))
              λ check _.
                Ensures-bind (any (check_edit check project env name_to_var))
                  λ _ _. returned _ (lines, refl, k))
      out
