-- ===== src/Tests/Listener.antt =====
-- A daemon that starts over a stale socket, and one that leaves another daemon's.
use secretov.Prelude.{ℕ, ◌≡◌, refl, none, some, true, false, [], ◌∷◌, arith}
use secretov.Prelude.Text.{Text, lit}
use secretov.Prelude.Result.{Result, ok, err}
use secretov.Daemon.Loop.{Visit, accept_loop}
use secretov.Daemon.Loop.Closed.{accept_loop-closed}
use secretov.Daemon.Loop.Healthy.{accept_loop-IsHealthy}
use secretov.Daemon.Sound.{IsHealthy}
use secretov.Tests.Daemon.{arriving, guess-AllDenied}
use secretov.Tests.Platform.{small, small_sodium-laws}
use secretov.Tests.Stores.{held, world, held-IsStored, held-IsUnlockedBy}
use secretov.Transport.Listener.{ended, Inode, Setup, Listener, make_listener}
use secretov.Transport.Listener.Owned.{IsExclusive, SettingOf, make_listener-SettingOf}

abbrev left_over : Inode
left_over = record { dev = 1; ino = 7; is_socket = true }

abbrev ours : Inode
ours = record { dev = 1; ino = 8; is_socket = true }

abbrev setup : Setup
setup = record {
  lstat_fails = false;
  dial = record { socket_fails = false; calls = ended false ∷ [] };
  unlink_error = none;
  socket_error = none;
  bind =
      λ place. elim place [ none ↦ ok ours | some existing ↦ err (lit "Address already in use") ];
  chmod_error = none;
  stat_error = none;
  listen_error = none;
  cleans = true;
}

setup-IsExclusive : IsExclusive setup
setup-IsExclusive = record {
  taken = λ existing. (lit "Address already in use", refl);
  makes = λ bound h. ground (arith, h);
}

make_listener-SettingOf_example :
    SettingOf 108 setup
      (lit "/run/s")
      (some left_over)
      (make_listener 108 setup (lit "/run/s") (some left_over))
make_listener-SettingOf_example =
    make_listener-SettingOf 108 setup (lit "/run/s") (some left_over) setup-IsExclusive

abbrev listening : Listener
listening = record { path = lit "/run/s"; bound_dev = 1; bound_ino = 8 }

six_is_not_five : ◌≡◌ {A = Result Text ℕ} (ok 6) (ok 5) → ⊥
six_is_not_five h = ground (arith, h)

-- A peer that guesses the token, one of another user, and one whose uid cannot be read.
abbrev guessing : Visit small
guessing = record { peer_uid = ok 5; arrivals = arriving (1 ∷ []) ∷ [] }

abbrev foreign : Visit small
foreign = record { peer_uid = ok 6; arrivals = arriving (2 ∷ []) ∷ [] }

abbrev unknown : Visit small
unknown = record { peer_uid = err (lit "EBADF"); arrivals = [] }

accept_loop-IsHealthy_example :
    IsHealthy small
      (accept_loop small 5 (2 ∷ []) (some guessing ∷ none ∷ some unknown ∷ []) held world).store
      (accept_loop small 5 (2 ∷ []) (some guessing ∷ none ∷ some unknown ∷ []) held world).world
accept_loop-IsHealthy_example =
    accept_loop-IsHealthy small small_sodium-laws 5 (2 ∷ [])
      (some guessing ∷ none ∷ some unknown ∷ []) held world ((omega arith, tt), (tt, tt))
      (lit "pass", held-IsStored, held-IsUnlockedBy)

accept_loop-closed_example :
    ((accept_loop small 5 (2 ∷ []) (some guessing ∷ some foreign ∷ []) held world).store ≡ held)
    × ((accept_loop small 5 (2 ∷ []) (some guessing ∷ some foreign ∷ []) held world).world.disk
        ≡ world.disk)
accept_loop-closed_example =
    accept_loop-closed small 5 (2 ∷ []) (some guessing ∷ some foreign ∷ []) held world
      ((λ same. guess-AllDenied), ((λ same. absurd (six_is_not_five same)), tt))
