-- ===== src/Manifest/Files/Vetted.antt =====
-- What a manifest that is read was checked for.
use secretov.Prelude.{
  ◌≡◌, ◌⊎◌, inl, inr, subst, true, false, not, arith, Bool-cases, if◌then◌else◌, List, [], ◌∷◌,
  ◌++◌,
}
use secretov.Prelude.Result.{throw_if-ok, Result, ok, err, bind-eq-ok, throw_if, ok_inj}
use secretov.Prelude.Text.{Text, lit, is_empty}
use secretov.Manifest.Files.{
  Node, Chunk, interrupted, chunk, failed, ended, Opened, FileSystem, read_chunks, describe,
  require_trusted_dir, require_trusted_target, read_opened, read_manifest_text,
}
use secretov.Manifest.Trust.{Accounts, require_trusted}
use secretov.Manifest.Trust.Trusted.{IsLookup, IsTrusted, require_trusted-IsTrusted}

-- The reads of a file up to its end, none of which failed, and the bytes that they give.
pub data IsWhole : List Chunk → Text → Type 0 where
  no_more : IsWhole [] []
  at_end : {chunks : List Chunk} → IsWhole (ended ∷ chunks) []
  again :
      {chunks : List Chunk} {text : Text}
      → IsWhole chunks text
      → IsWhole (interrupted ∷ chunks) text
  piece :
      {bytes text : Text} {chunks : List Chunk}
      → IsWhole chunks text
      → IsWhole (chunk bytes ∷ chunks) (bytes ++ text)

read_chunks-IsWhole :
    (chunks : List Chunk) (text : Text) → read_chunks chunks ≡ ok text → IsWhole chunks text
unfolding read_chunks
read_chunks-IsWhole [] text h = subst (IsWhole []) (ok_inj h) no_more
read_chunks-IsWhole (interrupted ∷ chunks) text h = again (read_chunks-IsWhole chunks text h)
read_chunks-IsWhole (ended ∷ chunks) text h = subst (IsWhole (ended ∷ chunks)) (ok_inj h) at_end
read_chunks-IsWhole (failed why ∷ chunks) text h = cc
read_chunks-IsWhole (chunk bytes ∷ chunks) text h =
    let (rest, read, same) = bind-eq-ok (read_chunks chunks) _ h in
    subst (IsWhole (chunk bytes ∷ chunks)) (ok_inj same)
      (piece (read_chunks-IsWhole chunks rest read))

abbrev pub or_dot : Text → Text
or_dot dir = if is_empty dir then lit "." else dir

describe-ok {ℓ} :
    {A : Type ℓ} (call path : Text) (r : Result Text A) (v : A)
    → describe call path r ≡ ok v
    → r ≡ ok v
unfolding describe
describe-ok call path (ok u) v h = h
describe-ok call path (err why) v h = cc

module _ (a : Accounts) (fs : FileSystem) where
  -- A directory that is ours or root's, and whose mode, access control list and group give, as far
  -- as the entries of groups and accounts that the check reads show, no one else a way to write it.
  pub record IsVettedDir (dir : Text) : Type 0 where
    pub node : Node
    pub found : fs.stat (or_dot dir) ≡ ok node
    pub directory : node.is_directory ≡ true
    pub trusted : IsTrusted a (or_dot dir) node.stat true

  -- The text of a regular file of our own that passes the same test, as it was read up to its end;
  -- the directory of the path passes it, and that of the file that it leads to.
  pub record IsVetted (path text : Text) : Type 0 where
    pub real : Text
    pub file : Opened
    pub node : Node
    pub resolved : fs.canonical path ≡ ok real
    pub opened : fs.open_file real ≡ ok file
    pub stated : file.fstat ≡ ok node
    pub regular : node.is_regular ≡ true
    pub trusted : IsTrusted a path node.stat false
    pub named_in : IsVettedDir (fs.parent_path path)
    pub held_in : (fs.same_path real path ≡ true) ⊎ IsVettedDir (fs.parent_path real)
    pub contents : IsWhole file.chunks text

  require_trusted_dir-IsVettedDir :
      (dir noun d : Text) → IsLookup a → require_trusted_dir a fs dir noun ≡ ok d → IsVettedDir dir
  unfolding require_trusted_dir
  require_trusted_dir-IsVettedDir dir noun d look h =
      let (node, found, h₁) =
        bind-eq-ok (describe (lit "stat") (or_dot dir) (fs.stat (or_dot dir))) _ h in
      let (u₁, directory, h₂) = bind-eq-ok (throw_if (not node.is_directory) _) _ h₁ in
      let (u₂, trusted, h₃) =
        bind-eq-ok (require_trusted a (or_dot dir) node.stat noun true) _ h₂ in
      record {
        node = node;
        found = describe-ok _ _ (fs.stat (or_dot dir)) node found;
        directory = ground (arith, throw_if-ok (not node.is_directory) _ directory);
        trusted = require_trusted-IsTrusted a (or_dot dir) node.stat noun true look trusted;
      }

  require_trusted_target-IsVettedDir :
      (path real noun : Text)
      → IsLookup a
      → require_trusted_target a fs path real noun ≡ ok tt
      → (fs.same_path real path ≡ true) ⊎ IsVettedDir (fs.parent_path real)
  unfolding require_trusted_target
  require_trusted_target-IsVettedDir path real noun look h =
      elim (Bool-cases (fs.same_path real path)) [
        | inl e ↦ inl e
        | inr e ↦
            let (d, dir, _) =
              bind-eq-ok (require_trusted_dir a fs (fs.parent_path real) noun) _
                (rw (require_trusted_target, e) at h) in
            inr (require_trusted_dir-IsVettedDir (fs.parent_path real) noun d look dir)
      ]

  -- getgrgid answers with an entry of the gid that was asked for. Then a text that is read as a
  -- manifest or a registry is that of a regular file of our own, read up to its end without an
  -- error. The directory of its name and, for a symbolic link, that of its target are ours or
  -- root's. None of the three is writable by everyone; and where the mode lets the group write,
  -- there is no access control list and the group is our own, in which the entries of groups and
  -- accounts that the check reads show no one but us. Accounts that these entries do not show are
  -- not excluded.
  pub read_manifest_text-IsVetted :
      (path noun text : Text)
      → IsLookup a
      → read_manifest_text a fs path noun ≡ ok text
      → IsVetted path text
  unfolding read_manifest_text read_opened
  read_manifest_text-IsVetted path noun text look h =
      let (real, resolved, h₁) = bind-eq-ok (describe noun path (fs.canonical path)) _ h in
      let (d, named, h₂) = bind-eq-ok (require_trusted_dir a fs (fs.parent_path path) noun) _ h₁ in
      let (u, target, h₃) = bind-eq-ok (require_trusted_target a fs path real noun) _ h₂ in
      let (file, opened, h₄) = bind-eq-ok (describe (lit "open") path (fs.open_file real)) _ h₃ in
      let (node, stated, h₅) = bind-eq-ok (describe (lit "stat") path file.fstat) _ h₄ in
      let (u₁, regular, h₆) = bind-eq-ok (throw_if (not node.is_regular) _) _ h₅ in
      let (u₂, trusted, h₇) = bind-eq-ok (require_trusted a path node.stat noun false) _ h₆ in
      record {
        real = real;
        file = file;
        node = node;
        resolved = describe-ok _ _ _ _ resolved;
        opened = describe-ok _ _ _ _ opened;
        stated = describe-ok _ _ _ _ stated;
        regular = ground (arith, throw_if-ok (not node.is_regular) _ regular);
        trusted = require_trusted-IsTrusted a path node.stat noun false look trusted;
        named_in = require_trusted_dir-IsVettedDir (fs.parent_path path) noun d look named;
        held_in = require_trusted_target-IsVettedDir path real noun look target;
        contents = read_chunks-IsWhole file.chunks text (describe-ok _ _ _ _ h₇);
      }
