-- ===== src/Transport/Listener.antt =====
-- The daemon's socket in the file system: `Listener`, `connect_unix` and `unlink_if_same_inode`
-- (src/transport.cpp). What the path names changes only by the calls made here.
pub mod Owned
use secretov.Prelude.{
  ℕ, Option, none, some, Bool, true, false, not, ◌&&◌, ◌||◌, List, [], ◌∷◌, ◌++◌, ◌==◌, ltb, length,
  if◌then◌else◌,
}
use secretov.Prelude.Result.{Result, ok, err, ◌>>=◌}
use secretov.Prelude.Text.{Text, lit}

-- What lstat tells of a path.
pub record Inode : Type 0 where
  pub dev : ℕ
  pub ino : ℕ
  pub is_socket : Bool

-- What the path names: nothing, or an inode.
abbrev pub Place : Type 0
Place = Option Inode

-- One ::connect: interrupted, or ended with or without a connection.
pub data ConnectCall : Type 0 where
  retry : ConnectCall
  ended : Bool → ConnectCall

-- The calls of one connect_unix.
pub record Dial : Type 0 where
  pub socket_fails : Bool
  pub calls : List ConnectCall

-- What the system answers to the constructor: each error with the text of its errno. `unlink_error`
-- is none for ENOENT as well.
pub record Setup : Type 0 where
  pub lstat_fails : Bool
  pub dial : Dial
  pub unlink_error : Option Text
  pub socket_error : Option Text
  pub bind : Place → Result Text Inode
  pub chmod_error : Option Text
  pub stat_error : Option Text
  pub listen_error : Option Text
  -- whether the ::unlink behind a failure works
  pub cleans : Bool

pub record Listener : Type 0 where
  pub path : Text
  pub bound_dev : ℕ
  pub bound_ino : ℕ

-- unix_address: a path fits if its terminator does.
unfoldable pub fits_address : ℕ → Text → Bool
fits_address sun_path_bytes path = ltb (length path) sun_path_bytes

unfoldable pub connect_calls : List ConnectCall → Bool
connect_calls [] = false
connect_calls (retry ∷ calls) = connect_calls calls
connect_calls (ended connected ∷ calls) = connected

unfoldable pub connect_unix : ℕ → Text → Dial → Bool
connect_unix sun_path_bytes path dial =
    fits_address sun_path_bytes path && (not dial.socket_fails && connect_calls dial.calls)

unfoldable pub unlink_if_same_inode : Bool → Bool → ℕ → ℕ → Place → Place
unlink_if_same_inode lstat_fails unlink_fails dev ino none = none
unlink_if_same_inode lstat_fails unlink_fails dev ino (some current) =
    if not (ino == 0)
      && (not lstat_fails && ((current.dev == dev && current.ino == ino) && not unlink_fails))
    then none
    else some current

-- What the constructor throws or makes, and what the path names behind it.
abbrev pub Setting : Type 0
Setting = Result Text Listener × Place

unfoldable pub failed_setup : Text → Text → Text → Place → Setting
failed_setup operation path why place =
    (err (operation ++ (lit "(" ++ (path ++ (lit ") failed: " ++ why)))), place)

-- What is left of the new socket by the ::unlink of a failure.
unfoldable pub cleaned : Setup → Inode → Place
cleaned a bound = if a.cleans then none else some bound

-- From the bound socket on.
unfoldable pub finish_setup : Setup → Text → Inode → Setting
finish_setup a path bound = elim a.chmod_error [
  | some why ↦ failed_setup (lit "chmod") path why (cleaned a bound)
  | none ↦ elim a.stat_error [
    | some why ↦ failed_setup (lit "stat") path why (cleaned a bound)
    | none ↦ elim a.listen_error [
      | some why ↦ failed_setup (lit "listen") path why (cleaned a bound)
      | none ↦
          (ok (record { path = path; bound_dev = bound.dev; bound_ino = bound.ino }), some bound)
    ]
  ]
]

-- From the address on; a stale socket is gone by then.
unfoldable pub bind_setup : ℕ → Setup → Text → Place → Setting
bind_setup sun_path_bytes a path place =
    if not (fits_address sun_path_bytes path)
    then (err (lit "socket path too long: " ++ path), place)
    else elim a.socket_error [
      | some why ↦ (err (lit "socket() failed: " ++ why), place)
      | none ↦ elim (a.bind place) [
        | err why ↦ failed_setup (lit "bind") path why place
        | ok bound ↦ finish_setup a path bound
      ]
    ]

-- What lstat finds at the path: a daemon that answers and a file of another kind stay.
unfoldable pub clear_stale : ℕ → Setup → Text → Inode → Result Text (Unit {0})
clear_stale sun_path_bytes a path existing =
    if connect_unix sun_path_bytes path a.dial
    then err (lit "daemon already running at " ++ path)
    else if not existing.is_socket
    then err (path ++ lit " exists and is not a socket; refusing to remove it")
    else elim a.unlink_error [
      | some why ↦ err (lit "unlink stale socket '" ++ (path ++ (lit "': " ++ why)))
      | none ↦ ok tt
    ]

unfoldable pub make_listener : ℕ → Setup → Text → Place → Setting
make_listener sun_path_bytes a path none = bind_setup sun_path_bytes a path none
make_listener sun_path_bytes a path (some existing) =
    if a.lstat_fails
    then bind_setup sun_path_bytes a path (some existing)
    else elim (clear_stale sun_path_bytes a path existing) [
      | err what ↦ (err what, some existing)
      | ok _ ↦ bind_setup sun_path_bytes a path none
    ]

-- ~Listener, and the daemon's on_signal: the path is unlinked only while it names our inode.
unfoldable pub close_listener : Bool → Bool → Listener → Place → Place
close_listener lstat_fails unlink_fails l =
    unlink_if_same_inode lstat_fails unlink_fails l.bound_dev l.bound_ino
