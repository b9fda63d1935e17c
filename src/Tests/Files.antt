-- ===== src/Tests/Files.antt =====
-- A file system of one directory with a manifest that its owner alone can write.
use secretov.Prelude.{
  ◌≡◌, ◌<◌, ◌⊎◌, refl, inl, inr, none, some, Option, Bool, true, false, if◌then◌else◌, [], ◌∷◌,
  arith, length,
}
use secretov.Prelude.Result.{ok}
use secretov.Prelude.Text.{Text, lit, text_eq, is_empty, starts_with}
use secretov.Manifest.Files.{
  Node, chunk, interrupted, FileSystem, read_chunks, describe, require_trusted_dir, read_opened,
  require_trusted_target, read_manifest_text, find_manifest_upward,
}
use secretov.Manifest.Files.Nearest.{ParentLaws, IsNearest, find_manifest_upward-IsNearest}
use secretov.Manifest.Files.Vetted.{IsVetted, read_manifest_text-IsVetted}
use secretov.Manifest.Registry.{
  Environment, expand_vars, expand_from, expanded_variable, load_text, root_of, root_spec,
  load_registry, existing_root, document_root, registry_project_root,
}
use secretov.Manifest.Registry.Targets.{IsRegistry, IsRoot, registry_project_root-IsRoot}
use secretov.Manifest.Trust.{require_trusted}
use secretov.Manifest.Yaml.{Yaml}
use secretov.Tests.Manifest.{machine, machine-IsLookup}

-- mode 0600, and a directory of mode 0700
abbrev private_file : Node
private_file = record {
  stat = record { uid = 1000; gid = 1000; mode = 384 };
  is_directory = false;
  is_regular = true;
}

abbrev private_dir : Node
private_dir = record {
  stat = record { uid = 1000; gid = 1000; mode = 448 };
  is_directory = true;
  is_regular = false;
}

abbrev pub fs : FileSystem
fs = record {
  canonical = λ path. ok path;
  parent_path = λ path. [];
  same_path = text_eq;
  in_directory = λ dir name. lit "m";
  stat = λ path. ok private_dir;
  open_file = λ path. ok (record {
    fstat = ok private_file;
    chunks = interrupted ∷ chunk (lit "a") ∷ chunk (lit "ny") ∷ [];
  });
  writable = λ path. ok tt;
  is_there = λ path. true;
  link_is_there = λ path. true;
}

root_is_shorter : (dir : Text) → (text_eq [] dir ≡ true) ⊎ (0 < length dir)
unfolding text_eq
root_is_shorter [] = inl refl
root_is_shorter (c ∷ dir) = inr (omega arith)

pub fs-ParentLaws : ParentLaws fs
fs-ParentLaws = record { shorter = root_is_shorter }

pub text_read : read_manifest_text machine fs (lit "m") (lit "manifest") ≡ ok (lit "any")
unfolding read_manifest_text describe require_trusted_dir require_trusted_target read_opened
    read_chunks require_trusted lit text_eq is_empty
text_read = refl

read_manifest_text-IsVetted_example : IsVetted machine fs (lit "m") (lit "any")
read_manifest_text-IsVetted_example =
    read_manifest_text-IsVetted machine fs (lit "m") (lit "manifest") (lit "any") machine-IsLookup
      text_read

find_manifest_upward-IsNearest_example :
    (found : Option Text) × (find_manifest_upward machine fs (lit "/w") ≡ some found)
    × IsNearest machine fs (lit "/w") found
find_manifest_upward-IsNearest_example =
    find_manifest_upward-IsNearest machine fs (lit "/w") fs-ParentLaws

-- A registry with one project and one target.
data Part : Type 0 where
  document projects project root targets target : Part

abbrev is_mapping : Part → Bool
is_mapping document = true
is_mapping projects = true
is_mapping project = true
is_mapping _ = false

abbrev is_text : Part → Bool
is_text root = true
is_text target = true
is_text _ = false

abbrev is_list : Part → Bool
is_list targets = true
is_list _ = false

abbrev written : Part → Text
written root = lit "${HOME}/w"
written _ = lit "gcp:my-project"

-- A project or its root, by its name.
abbrev inner : Part → Text → Option Part
inner projects name = if text_eq name (lit "api") then some project else none
inner project name = if text_eq name (lit "root") then some root else none
inner _ name = none

abbrev member : Text → Part
member name = if text_eq name (lit "projects") then projects else targets

abbrev listing : Yaml
listing = record {
  Node = Part;
  load = λ text. ok document;
  as_string = λ part. ok (written part);
  is_map = is_mapping;
  is_null = λ part. false;
  is_scalar = is_text;
  is_sequence = is_list;
  get = inner;
  subscript = λ part name. ok (some (member name));
  pairs = λ part. [];
  items = λ part. target ∷ [];
}

abbrev pub home : Environment
home name = if text_eq name (lit "HOME") then some (lit "/h") else none

expanded : expand_vars home (lit "${HOME}/w") ≡ ok (lit "/h/w")
unfolding expand_vars expand_from expanded_variable starts_with lit text_eq is_empty
expanded = refl

root_found :
    registry_project_root machine fs listing home (lit "r") (lit "api") ≡ ok (some (lit "/h/w"))
unfolding registry_project_root load_registry load_text document_root root_spec root_of
    existing_root expand_vars expand_from expanded_variable starts_with lit text_eq is_empty
    read_manifest_text describe require_trusted_dir require_trusted_target read_opened read_chunks
    require_trusted
root_found = refl

registry_project_root-IsRoot_example :
    (doc : Part) × IsRegistry machine fs listing (lit "r") doc
    × IsRoot machine fs listing home (lit "api") (lit "/h/w") doc
registry_project_root-IsRoot_example =
    registry_project_root-IsRoot machine fs listing home (lit "r") (lit "api") (lit "/h/w")
      machine-IsLookup root_found
