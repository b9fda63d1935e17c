-- ===== src/Manifest/Edit/Carried.antt =====
-- An edited text is a valid manifest with the entries that were asked for.
use secretov.Prelude.{
  ◌≡◌, refl, sym, ap, ◌∙◌, some, List, [], ◌∷◌, Option-cases, Bool-cases, inl, inr,
}
use secretov.Prelude.Map.{lookup}
use secretov.Prelude.Result.{
  ok, Ensures, returned, failed, any, ensured, Ensures-bind, Ensures-map, holds,
}
use secretov.Prelude.Text.{Text, lit, text_eq, text_eq→eq}
use secretov.Manifest.Document.{parse_manifest}
use secretov.Manifest.Document.Checked.{parse_manifest-IsValid}
use secretov.Manifest.Document.Valid.{IsValid}
use secretov.Manifest.Edit.{
  check_names, edited_lines, entry_named, differs, check_entry, check_entries, check_edit,
  manifest_with_entries,
}
use secretov.Manifest.Lines.{split_lines, join_lines}
use secretov.Manifest.Parse.{SecretEntry, KeyValues, Manifest}
use secretov.Manifest.Scopes.{require_segment, scoped_key}
use secretov.Manifest.Yaml.{Yaml}

-- The entry of that name has the variable, and reads the store's key of its scope.
pub record IsEntryFor (env project name var : Text) (entry : SecretEntry) : Type 0 where
  pub variable : entry.env_var ≡ var
  pub scoped : scoped_key env project name ≡ ok entry.path

abbrev pub AreCarried : Text → Text → List SecretEntry → KeyValues → Type 0
AreCarried env project entries [] = Unit
AreCarried env project entries ((name, var) ∷ name_to_var) =
    ((entry : SecretEntry) × (entry_named name entries ≡ some entry)
      × IsEntryFor env project name var entry)
    × AreCarried env project entries name_to_var

pub record Carries (m : Manifest) (project env : Text) (name_to_var : KeyValues) : Type 0 where
  pub entries : List SecretEntry
  pub of_project : m.project ≡ project
  pub present : lookup env m.envs ≡ some entries
  pub carried : AreCarried env project entries name_to_var

check_entry-IsEntryFor :
    (env project name var : Text) (entry : SecretEntry)
    → Ensures (λ _. IsEntryFor env project name var entry) (check_entry env project name var entry)
unfolding check_entry differs
check_entry-IsEntryFor env project name var entry = elim (Bool-cases (text_eq entry.env_var var)) [
  | inr e ↦ rw e (failed _)
  | inl e ↦ rw e (
      Ensures-bind (ensured (scoped_key env project name) (λ key s. s)) λ key s.
        elim (Bool-cases (text_eq entry.path key)) [
          | inr f ↦ rw f (failed _)
          | inl f ↦ rw f (
              returned tt (record {
                variable = text_eq→eq _ _ e;
                scoped = s ∙ ap ok (sym (text_eq→eq _ _ f));
              }))
        ])
]

check_entries-AreCarried :
    (env project : Text) (entries : List SecretEntry) (name_to_var : KeyValues)
    → Ensures
        (λ _. AreCarried env project entries name_to_var)
        (check_entries env project entries name_to_var)
unfolding check_entries
check_entries-AreCarried env project entries [] = returned tt tt
check_entries-AreCarried env project entries ((name, var) ∷ name_to_var) =
    elim (Option-cases (entry_named name entries)) [
      | inl e ↦ rw (check_entries, e) (failed _)
      | inr (entry, e) ↦
          rw (check_entries, e)
            (Ensures-bind (check_entry-IsEntryFor env project name var entry) λ _ is_entry.
              Ensures-map (λ _ later. ((entry, refl, is_entry), later))
                (check_entries-AreCarried env project entries name_to_var))
    ]

check_edit-Carries :
    (check : Manifest) (project env : Text) (name_to_var : KeyValues)
    → Ensures
        (λ _. Carries check project env name_to_var)
        (check_edit check project env name_to_var)
unfolding check_edit
check_edit-Carries check project env name_to_var =
    elim (Bool-cases (text_eq check.project project)) [
      | inr e ↦ rw e (failed _)
      | inl e ↦ elim (Option-cases (lookup env check.envs)) [
        | inl f ↦ rw (e, f) (failed _)
        | inr (entries, f) ↦
            rw (e, f)
              (Ensures-map
                (λ _ carried. record {
                  entries = entries;
                  of_project = text_eq→eq _ _ e;
                  present = f;
                  carried = carried;
                })
                (check_entries-AreCarried env project entries name_to_var))
      ]
    ]

-- The text that an edit returns is read as a manifest that has passed every check of the parser.
-- It is of the project, and under the environment each name that was asked for has an entry with
-- the variable that was asked for, which reads the key env/project/name.
pub manifest_with_entries-Carries :
    (y : Yaml) (text project env : Text) (name_to_var : KeyValues) {out : Text}
    → manifest_with_entries y text project env name_to_var ≡ ok out
    → (m : Manifest) × (parse_manifest y out (lit "<edited manifest>") ≡ ok m)
      × IsValid m
      × Carries m project env name_to_var
unfolding manifest_with_entries
manifest_with_entries-Carries y text project env name_to_var {out} =
    holds
      {P = λ out.
        (m : Manifest) × (parse_manifest y out (lit "<edited manifest>") ≡ ok m)
        × IsValid m
        × Carries m project env name_to_var}
      (Ensures-bind (any (require_segment env (lit "environment"))) λ _ _.
        Ensures-bind (any (check_names name_to_var)) λ _ _.
          Ensures-bind (any (edited_lines (split_lines text) project env name_to_var)) λ lines _.
            Ensures-bind
              (ensured (parse_manifest y (join_lines lines) (lit "<edited manifest>"))
                (λ check read. read))
              λ check read.
                Ensures-bind (check_edit-Carries check project env name_to_var) λ _ carries.
                  returned _ (
                    check,
                    read,
                    parse_manifest-IsValid y (join_lines lines) (lit "<edited manifest>") read,
                    carries,
                  ))
      out
