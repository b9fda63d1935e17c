-- ===== src/Daemon/Loop.antt =====
-- `run_daemon` as a whole (src/daemon.cpp): the start, the socket, and the loop that accepts one
-- connection after the other.
pub mod Healthy
pub mod Closed
use secretov.Prelude.{ℕ, Option, none, some, Bool, List, [], ◌∷◌, ◌++◌, if◌then◌else◌}
use secretov.Prelude.Result.{Result, ok, err}
use secretov.Prelude.Text.{Text, lit}
use secretov.Daemon.{Arrival, Served, serve_connection}
use secretov.Daemon.Startup.{start}
use secretov.Io.{World}
use secretov.Platform.{Platform}
use secretov.Store.{Store}
use secretov.Transport.Listener.{Place, Setup, Listener, Setting, make_listener}

-- Where everything stands: the replies of each connection, the store and the world.
pub record Running (p : Platform) : Type 0 where
  pub replies : List (List Text)
  pub store : Store p
  pub world : World

module _ (p : Platform) where
  -- One connection: the peer's uid or the error that asking for it gives, and what arrives.
  pub record Visit : Type 0 where
    pub peer_uid : Result Text ℕ
    pub arrivals : List (Arrival p)

  -- serve_connection with the call of peer_uid.
  unfoldable pub serve_visit : ℕ → Text → Visit → Store p → World → Served p
  serve_visit my_uid expected_token visit s w = elim visit.peer_uid [
    | err what ↦ record { replies = []; store = s; world = w; thrown = some what }
    | ok peer_uid ↦ serve_connection p peer_uid my_uid expected_token visit.arrivals s w
  ]

  unfoldable pub connection_error : Option Text → World → World
  connection_error none w = w
  connection_error (some what) w = record w {
    stderr = w.stderr ++ ((lit "secretov: connection error: " ++ what) ∷ []);
  }

  -- The loop, for the answers of accept: none is an error, behind which it waits and goes on.
  unfoldable pub accept_loop : ℕ → Text → List (Option Visit) → Store p → World → Running p
  accept_loop my_uid expected_token [] s w = record { replies = []; store = s; world = w }
  accept_loop my_uid expected_token (none ∷ rest) s w = accept_loop my_uid expected_token rest s w
  accept_loop my_uid expected_token (some visit ∷ rest) s w =
      let served = serve_visit my_uid expected_token visit s w in
      let later =
        accept_loop my_uid expected_token rest served.store
          (connection_error served.thrown served.world) in
      record later { replies = served.replies ∷ later.replies }

  -- What run_daemon throws before the loop, or where the loop stands, and what the socket's path
  -- names.
  pub record Daemoned : Type 0 where
    pub outcome : Result Text (Listener × Running p)
    pub world : World
    pub place : Place

  unfoldable pub run_loop :
      ℕ → Text → Text → List (Option Visit) → Store p → World → Setting → Daemoned
  run_loop my_uid store_path token visits s w (err what, place) = record {
    outcome = err what;
    world = w;
    place = place;
  }
  run_loop my_uid store_path token visits s w (ok l, place) =
      let listening = record w {
        stderr =
            w.stderr
            ++ ((lit "secretov: listening on "
                  ++ (l.path ++ (lit " (store " ++ (store_path ++ lit ")"))))
                ∷ []);
      } in
      let loop = accept_loop my_uid token visits s listening in
      record { outcome = ok (l, loop); world = loop.world; place = place }

  -- Behind setrlimit and the passphrase: `running` tells whether something answers at the socket
  -- before.
  unfoldable pub run_daemon :
      ℕ
      → Setup
      → Place
      → ℕ
      → Text
      → Text
      → Text
      → Bool
      → Text
      → ℕ
      → List (Option Visit)
      → World
      → Daemoned
  run_daemon sun_path_bytes setup before my_uid store_path token_path socket running passphrase now
        visits w =
      let (started, w') = start p store_path token_path socket running passphrase now w in
      elim started [
        | err what ↦ record { outcome = err what; world = w'; place = before }
        | ok (s, token) ↦
            run_loop my_uid store_path token visits s w'
              (make_listener sun_path_bytes setup socket before)
      ]
