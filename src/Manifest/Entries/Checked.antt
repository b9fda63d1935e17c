-- ===== src/Manifest/Entries/Checked.antt =====
-- An entry and a variable that are read have passed the checks.
use secretov.Prelude.{
  ◌≡◌, not, Bool, true, false, none, some, Option, List, [], ◌∷◌, ◌++◌, if◌then◌else◌, arith,
  Bool-cases, Option-cases, inl, inr,
}
use secretov.Prelude.Result.{
  ok, Result-cases, Ensures, ensured, any, Ensures-bind, returned, failed,
}
use secretov.Prelude.Text.{Text, lit, is_empty}
use secretov.Manifest.Cloud.{BackendType, local, aws, gcp}
use secretov.Manifest.Cloud.Located.{resolve_aws_path_lem, resolve_gcp_path_lem}
use secretov.Manifest.Entries.{
  Place, parse_kind, Read, local_entry, entry_field, resolve_path, cloud_entry, finish_entry,
  optional_scalar, parse_body, parse_entry, parse_entries, parse_env_secrets, parse_vars,
  parse_env_vars,
}
use secretov.Manifest.EnvNames.{is_identifier, is_denied_env_name, require_manifest_env_name}
use secretov.Manifest.Parse.{
  EntryKind, text, kv, SecretEntry, KeyValues, scalar_at, refuse, refuse_unknown_keys,
}
use secretov.Manifest.Parse.Backend.{IsPlaced}
use secretov.Manifest.Yaml.{Yaml, from_yaml, from_code}

abbrev pub IsAllowed : Text → Type 0
IsAllowed name = (is_identifier name ≡ true) × (is_denied_env_name name ≡ false)

allowed :
    (name path what : Text) → require_manifest_env_name name path what ≡ ok tt → IsAllowed name
unfolding require_manifest_env_name
allowed name path what h = ground (arith, h)

-- A local entry is a text; a cloud entry names a field exactly if it is a kv entry.
abbrev pub IsFormed : BackendType → EntryKind → Text → Type 0
IsFormed local kind field = (kind ≡ text) × (field ≡ [])
IsFormed _ kind field = (kind ≡ text → field ≡ []) × (kind ≡ kv → is_empty field ≡ false)

pub record IsEntry (backend : BackendType) (e : SecretEntry) : Type 0 where
  pub allowed : IsAllowed e.env_var
  pub placed : IsPlaced backend e.location
  pub formed : IsFormed backend e.kind e.field

is_filled : Option Text → Bool
is_filled none = true
is_filled (some key) = not (is_empty key)

entry_field_lem :
    (at : Place) (described : Text) (r : Read) {field : Text}
    → is_filled r.key ≡ true
    → entry_field at described r ≡ ok field
    → IsFormed aws r.kind field
unfolding entry_field is_filled
entry_field_lem at described r {field} k h = ground arith

local_entry_lem :
    (at : Place) (described : Text) (r : Read) {e : SecretEntry}
    → IsAllowed r.env_var
    → local_entry at described r ≡ ok e
    → IsEntry local e
unfolding local_entry
local_entry_lem at described r {e} a h = ground arith

cloud_entry_lem :
    (at : Place) (described : Text) (r : Read) {e : SecretEntry}
    → is_filled r.key ≡ true
    → IsAllowed r.env_var
    → cloud_entry at described r ≡ ok e
    → IsAllowed e.env_var
      × IsFormed aws e.kind e.field
      × (resolve_path at described e.path ≡ ok e.location)
unfolding cloud_entry
cloud_entry_lem at described r {e} k a h = elim (Option-cases r.secret_path) [
  | inl s ↦ ground (arith, s)
  | inr (path, s) ↦ elim (Result-cases (entry_field at described r)) [
    | inl (field, f) ↦ ground (arith, s, f, entry_field_lem at described r k f)
    | inr (why, f) ↦ ground (arith, s, f)
  ]
]

abbrev pub place : BackendType → Place → Place
place backend at = record at { backend = backend }

finish_entry_lem :
    (backend : BackendType) (at : Place) (described : Text) (r : Read) {e : SecretEntry}
    → IsPlaced backend at.env_location
    → is_filled r.key ≡ true
    → IsAllowed r.env_var
    → finish_entry (place backend at) described r ≡ ok e
    → IsEntry backend e
unfolding finish_entry resolve_path
finish_entry_lem local at described r {e} p k a h = local_entry_lem (place local at) described r a h
finish_entry_lem aws at described r {e} p k a h =
    let (allowed, formed, resolved) = cloud_entry_lem (place aws at) described r k a h in
    record {
      allowed = allowed;
      placed = resolve_aws_path_lem e.path at.env_location at.path described p (ground arith);
      formed = formed;
    }
finish_entry_lem gcp at described r {e} p k a h =
    let (allowed, formed, resolved) = cloud_entry_lem (place gcp at) described r k a h in
    record {
      allowed = allowed;
      placed = resolve_gcp_path_lem e.path at.env_location at.path described p (ground arith);
      formed = formed;
    }

optional_scalar_lem :
    (y : Yaml) (body : y.Node) (key path described name : Text) {value : Option Text}
    → optional_scalar y body key path described name ≡ ok value
    → is_filled value ≡ true
unfolding optional_scalar is_filled
optional_scalar_lem y body key path described name {value} h = ground arith

abbrev pub AreEntries : BackendType → List SecretEntry → Type 0
AreEntries backend [] = Unit
AreEntries backend (entry ∷ entries) = IsEntry backend entry × AreEntries backend entries

abbrev pub AreAllowed : KeyValues → Type 0
AreAllowed [] = Unit
AreAllowed ((name, value) ∷ plain) = IsAllowed name × AreAllowed plain

code-IsAllowed :
    (name path what : Text)
    → Ensures (λ _. IsAllowed name) (from_code (require_manifest_env_name name path what))
code-IsAllowed name path what = ensured _ (λ _ e. allowed name path what (ground (arith, e)))

module _ (y : Yaml) (backend : BackendType) (at : Place)
    (p : IsPlaced backend at.env_location) where
  parse_body-IsEntry :
      (name described : Text) (body node : y.Node)
      → Ensures (IsEntry backend) (parse_body y (place backend at) name described body node)
  unfolding parse_body
  parse_body-IsEntry name described body node =
      let scalar = λ (key : Text). optional_scalar y body key at.path described name in
      Ensures-bind
        (any (
          refuse_unknown_keys y body (lit "env_var_name" ∷ lit "key" ∷ lit "kind" ∷ lit "path" ∷ [])
            at.path described))
        λ _ _. Ensures-bind (any (from_yaml (y.as_string node))) λ env_var _.
          Ensures-bind
            (code-IsAllowed env_var at.path
              (described ++ lit " env_var_name '" ++ env_var ++ lit "'"))
            λ _ allowed. Ensures-bind (any (scalar (lit "kind"))) λ kind_name _.
              Ensures-bind (any (parse_kind at.path described kind_name)) λ kind _.
                Ensures-bind
                  (ensured (scalar (lit "key"))
                    (λ key. optional_scalar_lem y body (lit "key") at.path described name))
                  λ key filled. Ensures-bind (any (scalar (lit "path"))) λ secret_path _.
                    ensured _ (λ e. finish_entry_lem backend at described _ p filled allowed)

  parse_entry-IsEntry :
      (pair : y.Node × y.Node) → Ensures (IsEntry backend) (parse_entry y (place backend at) pair)
  unfolding parse_entry
  parse_entry-IsEntry (first, body) = Ensures-bind (any (from_yaml (y.as_string first))) λ name _.
      elim (Option-cases (if y.is_map body then scalar_at y body (lit "env_var_name") else none)) [
        | inl e ↦ rw e (failed _)
        | inr (node, e) ↦ rw e (parse_body-IsEntry name _ body node)
      ]

  parse_entries-AreEntries :
      (pairs : List (y.Node × y.Node))
      → Ensures (AreEntries backend) (parse_entries y (place backend at) pairs)
  unfolding parse_entries
  parse_entries-AreEntries [] = returned [] tt
  parse_entries-AreEntries (pair ∷ pairs) =
      Ensures-bind (parse_entry-IsEntry pair) λ entry is_entry.
        Ensures-bind (parse_entries-AreEntries pairs)
          λ entries are_entries. returned _ (is_entry, are_entries)

  pub parse_env_secrets-AreEntries :
      (secrets : Option y.Node)
      → Ensures (AreEntries backend) (parse_env_secrets y (place backend at) secrets)
  unfolding parse_env_secrets
  parse_env_secrets-AreEntries none = returned [] tt
  parse_env_secrets-AreEntries (some secrets) = elim (Bool-cases (y.is_null secrets)) [
    | inl e ↦ rw e (returned [] tt)
    | inr e ↦ elim (Bool-cases (y.is_map secrets)) [
      | inr f ↦ rw (e, f) (failed _)
      | inl f ↦ rw (e, f) (parse_entries-AreEntries (y.pairs secrets))
    ]
  ]

module _ (y : Yaml) (path env : Text) where
  parse_vars-AreAllowed :
      (pairs : List (y.Node × y.Node)) → Ensures AreAllowed (parse_vars y path env pairs)
  unfolding parse_vars
  parse_vars-AreAllowed [] = returned [] tt
  parse_vars-AreAllowed ((first, second) ∷ pairs) =
      Ensures-bind (any (from_yaml (y.as_string first))) λ name _.
        Ensures-bind
          (code-IsAllowed name path (lit "var '" ++ name ++ lit "' (env " ++ env ++ lit ")"))
          λ _ allowed.
            Ensures-bind
              (any (
                if not (y.is_scalar second)
                then refuse path (
                    lit "var '"
                    ++ name
                    ++ lit "' (env "
                    ++ env
                    ++ lit ")"
                    ++ lit " must be a scalar value")
                else from_yaml (y.as_string second)))
              λ value _.
                Ensures-bind (parse_vars-AreAllowed pairs)
                  λ plain are_allowed. returned _ (allowed, are_allowed)

  pub parse_env_vars-AreAllowed :
      (vars : Option y.Node) → Ensures AreAllowed (parse_env_vars y path env vars)
  unfolding parse_env_vars
  parse_env_vars-AreAllowed none = returned [] tt
  parse_env_vars-AreAllowed (some vars) = elim (Bool-cases (y.is_null vars)) [
    | inl e ↦ rw e (returned [] tt)
    | inr e ↦ elim (Bool-cases (y.is_map vars)) [
      | inr f ↦ rw (e, f) (failed _)
      | inl f ↦ rw (e, f) (parse_vars-AreAllowed (y.pairs vars))
    ]
  ]
