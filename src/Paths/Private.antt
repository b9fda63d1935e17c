-- ===== src/Paths/Private.antt =====
-- Who else can reach the socket's directory.
use secretov.Prelude.{
  ◌≡◌, refl, ap, subst, ◌⊎◌, inl, inr, some, true, false, not, ◌++◌, arith, Option-cases,
}
use secretov.Prelude.Result.{ok, bind-eq-ok, ok_inj, Result-cases, throw_if-ok}
use secretov.Prelude.Text.{Text, lit, is_empty}
use secretov.Paths.{
  Paths, Process, DirStat, MkdirAnswer, made, existing, refused, socket_file, private_mode,
  variable, fallback_dir, is_private_dir, require_private, make_private, socket_path,
  xdg_dir_or_home, resolve_paths,
}

module _ (process : Process) where
  -- The directory was made by this call, which gives it to us alone, or it is ours and of mode
  -- 0700.
  pub data IsOurs (dir : Text) : Type 0 where
    new : process.mkdir dir private_mode ≡ made → IsOurs dir
    checked :
        (st : DirStat)
        → process.lstat dir ≡ ok st
        → st.is_directory ≡ true
        → st.uid ≡ process.my_uid
        → st.mode ≡ private_mode
        → IsOurs dir

  -- The socket is in the directory that the session gives, or in one of our own under /tmp.
  pub data IsGuardedSocket : Text → Type 0 where
    in_session :
        {runtime : Text}
        → process.getenv (lit "XDG_RUNTIME_DIR") ≡ some runtime
        → is_empty runtime ≡ false
        → IsGuardedSocket (runtime ++ socket_file)
    in_tmp : IsOurs (fallback_dir process) → IsGuardedSocket (fallback_dir process ++ socket_file)

  require_private-IsOurs : (dir : Text) → require_private process dir ≡ ok tt → IsOurs dir
  unfolding require_private is_private_dir
  require_private-IsOurs dir h = elim (Result-cases (process.lstat dir)) [
    | inr (why, e) ↦ cc (rw (require_private, e) at h)
    | inl (st, e) ↦
        let good = throw_if-ok (not (is_private_dir process st)) _ (rw (require_private, e) at h) in
        checked st e (ground (arith, good)) (ground (arith, good)) (ground (arith, good))
  ]

  MkdirAnswer-cases :
      (answer : MkdirAnswer)
      → (answer ≡ made) ⊎ ((answer ≡ existing) ⊎ ((why : Text) × (answer ≡ refused why)))
  MkdirAnswer-cases made = inl refl
  MkdirAnswer-cases existing = inr (inl refl)
  MkdirAnswer-cases (refused why) = inr (inr (why, refl))

  make_private-IsOurs : (dir : Text) → make_private process dir ≡ ok tt → IsOurs dir
  unfolding make_private
  make_private-IsOurs dir h = elim (MkdirAnswer-cases (process.mkdir dir private_mode)) [
    | inl e ↦ new e
    | inr (inl e) ↦ require_private-IsOurs dir (rw (make_private, e) at h)
    | inr (inr (why, e)) ↦ cc (rw (make_private, e) at h)
  ]

  variable-set :
      (name v : Text)
      → variable process name ≡ some v
      → (process.getenv name ≡ some v) × (is_empty v ≡ false)
  unfolding variable
  variable-set name v h = (ground (arith, h), ground (arith, h))

  socket_path-IsGuardedSocket :
      (socket : Text) → socket_path process ≡ ok socket → IsGuardedSocket socket
  unfolding socket_path
  socket_path-IsGuardedSocket socket h =
      elim (Option-cases (variable process (lit "XDG_RUNTIME_DIR"))) [
        | inr (runtime, e) ↦
            let (set, full) = variable-set (lit "XDG_RUNTIME_DIR") runtime e in
            subst IsGuardedSocket (ok_inj (rw (socket_path, e) at h)) (in_session set full)
        | inl e ↦
            let (u, ours, same) =
              bind-eq-ok (make_private process (fallback_dir process)) _
                (rw (socket_path, e) at h) in
            subst IsGuardedSocket (ok_inj same)
              (in_tmp (make_private-IsOurs (fallback_dir process) ours))
      ]

  -- The paths that are resolved have their socket in the session's runtime directory, where the
  -- variable of that is set and not empty; and else under /tmp in a directory that did not exist
  -- before the call or is a directory of our own with mode 0700, and not a symbolic link.
  pub resolve_paths-IsGuardedSocket :
      (p : Paths) → resolve_paths process ≡ ok p → IsGuardedSocket p.socket
  unfolding resolve_paths
  resolve_paths-IsGuardedSocket p h =
      let (data_dir, d, h₁) =
        bind-eq-ok (xdg_dir_or_home process (lit "XDG_DATA_HOME") (lit "/.local/share")) _ h in
      let (config_dir, c, h₂) =
        bind-eq-ok (xdg_dir_or_home process (lit "XDG_CONFIG_HOME") (lit "/.config")) _ h₁ in
      let (socket, s, same) = bind-eq-ok (socket_path process) _ h₂ in
      subst IsGuardedSocket (ap (λ (q : Paths). q.socket) (ok_inj same))
        (socket_path-IsGuardedSocket socket s)
