-- ===== src/Transport/Listener/Owned.antt =====
-- Whose socket a daemon removes.
use secretov.Prelude.{
  ℕ, ltb, length, ◌≤◌, List, [], ◌∷◌, ◌≡◌, refl, none, some, Bool, true, false, inl, inr, arith,
  Bool-cases, Option-cases, ◌<◌, ◌==◌, ◌&&◌,
}
use secretov.Prelude.Result.{ok, err, Result-cases}
use secretov.Prelude.Text.{Text}
use secretov.Transport.Listener.{
  Inode, Place, ConnectCall, retry, ended, Dial, connect_calls, Setup, Listener, Setting,
  connect_unix, fits_address, unlink_if_same_inode, failed_setup, finish_setup, bind_setup,
  clear_stale, make_listener, close_listener,
}

-- bind(2) of a path that is taken fails, and what it makes is a socket.
pub record IsExclusive (a : Setup) : Type 0 where
  pub taken : (existing : Inode) → (why : Text) × (a.bind (some existing) ≡ err why)
  pub makes : (bound : Inode) → a.bind none ≡ ok bound → bound.is_socket ≡ true

-- A connect that was tried until it failed, or never ended.
pub data Unanswered : List ConnectCall → Type 0 where
  not_ended : Unanswered []
  tried_again : {calls : List ConnectCall} → Unanswered calls → Unanswered (retry ∷ calls)
  failed : {calls : List ConnectCall} → Unanswered (ended false ∷ calls)

-- Why connect_unix has no connection: the path is no address, we get no socket of our own, or no
-- connect worked.
pub data NoAnswer (sun_path_bytes : ℕ) (path : Text) (dial : Dial) : Type 0 where
  too_long : sun_path_bytes ≤ length path → NoAnswer sun_path_bytes path dial
  no_socket : dial.socket_fails ≡ true → NoAnswer sun_path_bytes path dial
  no_connection : Unanswered dial.calls → NoAnswer sun_path_bytes path dial

connect_calls-Unanswered :
    (calls : List ConnectCall) → connect_calls calls ≡ false → Unanswered calls
unfolding connect_calls
connect_calls-Unanswered [] h = not_ended
connect_calls-Unanswered (retry ∷ calls) h = tried_again (connect_calls-Unanswered calls h)
connect_calls-Unanswered (ended connected ∷ calls) h = rw h failed

connect_unix-NoAnswer :
    (sun_path_bytes : ℕ) (path : Text) (dial : Dial)
    → connect_unix sun_path_bytes path dial ≡ false
    → NoAnswer sun_path_bytes path dial
unfolding connect_unix fits_address
connect_unix-NoAnswer sun_path_bytes path dial h =
    elim (Bool-cases (ltb (length path) sun_path_bytes)) [
      | inr long ↦ too_long (ground (arith, long))
      | inl fits ↦ elim (Bool-cases dial.socket_fails) [
        | inl e ↦ no_socket e
        | inr e ↦ no_connection (connect_calls-Unanswered dial.calls (ground (arith, h, fits, e)))
      ]
    ]

module _ (sun_path_bytes : ℕ) (a : Setup) (path : Text) where
  -- Nothing is at the path, or a socket from which we had no answer.
  pub data IsStale : Place → Type 0 where
    nothing : IsStale none
    stale :
        (existing : Inode)
        → existing.is_socket ≡ true
        → NoAnswer sun_path_bytes path a.dial
        → IsStale (some existing)

  pub data SettingOf (before : Place) : Setting → Type 0 where
    -- It throws, and what was at the path is still there.
    kept : (what : Text) → SettingOf before (err what, before)
    -- It throws, and only a socket without an answer was removed; its own may be left.
    removed : (what : Text) (after : Place) → IsStale before → SettingOf before (err what, after)
    -- The path names the socket that the listener takes for its own.
    bound :
        (l : Listener) (inode : Inode)
        → IsStale before
        → l.path ≡ path
        → (l.bound_dev ≡ inode.dev) × (l.bound_ino ≡ inode.ino) × (inode.is_socket ≡ true)
        → SettingOf before (ok l, some inode)

  finish_setup-SettingOf :
      (before : Place) (inode : Inode)
      → IsStale before
      → inode.is_socket ≡ true
      → SettingOf before (finish_setup a path inode)
  unfolding finish_setup failed_setup
  finish_setup-SettingOf before inode free socket = elim (Option-cases a.chmod_error) [
    | inr (why, e) ↦ simp (finish_setup, e) (removed _ _ free)
    | inl e ↦ elim (Option-cases a.stat_error) [
      | inr (why, f) ↦ simp (finish_setup, e, f) (removed _ _ free)
      | inl f ↦ elim (Option-cases a.listen_error) [
        | inr (why, g) ↦ simp (finish_setup, e, f, g) (removed _ _ free)
        | inl g ↦ simp (finish_setup, e, f, g) (bound _ inode free refl (refl, refl, socket))
      ]
    ]
  ]

  -- Behind the check of what was there.
  bind_setup-SettingOf :
      (before : Place)
      → IsExclusive a
      → IsStale before
      → SettingOf before (bind_setup sun_path_bytes a path none)
  unfolding bind_setup failed_setup
  bind_setup-SettingOf before exclusive free =
      elim (Bool-cases (fits_address sun_path_bytes path)) [
        | inr long ↦ simp long (removed _ _ free)
        | inl fits ↦ elim (Option-cases a.socket_error) [
          | inr (why, e) ↦ simp (fits, e) (removed _ _ free)
          | inl e ↦ elim (Result-cases (a.bind none)) [
            | inr (why, f) ↦ simp (fits, e, f) (removed _ _ free)
            | inl (inode, f) ↦
                simp (fits, e, f)
                  (finish_setup-SettingOf before inode free (exclusive.makes inode f))
          ]
        ]
      ]

  -- bind on a path that is taken.
  bind_setup-taken :
      (existing : Inode)
      → IsExclusive a
      → (what : Text) × (bind_setup sun_path_bytes a path (some existing)
          ≡ (err what, some existing))
  unfolding bind_setup failed_setup
  bind_setup-taken existing exclusive = elim (Bool-cases (fits_address sun_path_bytes path)) [
    | inr long ↦ simp long (_, refl)
    | inl fits ↦ elim (Option-cases a.socket_error) [
      | inr (why, e) ↦ simp (fits, e) (_, refl)
      | inl e ↦ simp (fits, e, (exclusive.taken existing).1) (_, refl)
    ]
  ]

  clear_stale-IsStale :
      (existing : Inode)
      → clear_stale sun_path_bytes a path existing ≡ ok tt
      → IsStale (some existing)
  unfolding clear_stale
  clear_stale-IsStale existing h =
      stale existing (ground (arith, h))
        (connect_unix-NoAnswer sun_path_bytes path a.dial (ground (arith, h)))

  -- The bind of a path that is taken fails, and what it makes is a socket. Then a start that throws
  -- leaves what was at the path, unless that was a socket from which we had no answer; and one that
  -- does not throw found nothing there or such a socket, and the path names the socket whose inode
  -- the listener holds. We had no answer if the path is too long for an address, if our own socket
  -- call failed, or if every connect was interrupted or failed. So a file of another kind is never
  -- removed, and neither is a live daemon's socket that we could connect to; but it is removed
  -- where our own socket call fails.
  pub make_listener-SettingOf :
      (before : Place)
      → IsExclusive a
      → SettingOf before (make_listener sun_path_bytes a path before)
  unfolding make_listener
  make_listener-SettingOf none exclusive = bind_setup-SettingOf none exclusive nothing
  make_listener-SettingOf (some existing) exclusive = elim (Bool-cases a.lstat_fails) [
    | inl e ↦ let (what, taken) = bind_setup-taken existing exclusive in simp (e, taken) (kept what)
    | inr e ↦ elim (Result-cases (clear_stale sun_path_bytes a path existing)) [
      | inr (what, f) ↦ simp (e, f) (kept what)
      | inl (u, f) ↦
          simp (e, f)
            (bind_setup-SettingOf (some existing) exclusive (clear_stale-IsStale existing f))
    ]
  ]

-- At its exit a listener removes what its path names only if that is the inode it bound, so the
-- socket of a daemon that took the path over stays; and its own is removed, unless a call fails.
close_listener-own :
    (lstat_fails unlink_fails : Bool) (l : Listener) (now : Inode)
    → let own = (now.dev == l.bound_dev) && (now.ino == l.bound_ino) in
      let after = close_listener lstat_fails unlink_fails l (some now) in
      (own ≡ false → after ≡ some now)
      × (own ≡ true → 0 < l.bound_ino → lstat_fails ≡ false → unlink_fails ≡ false → after ≡ none)
unfolding close_listener unlink_if_same_inode
close_listener-own lstat_fails unlink_fails l now =
    (λ h. ground (arith, h), λ h i j k. ground (arith, h, i, j, k))
