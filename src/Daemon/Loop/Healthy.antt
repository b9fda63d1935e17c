-- ===== src/Daemon/Loop/Healthy.antt =====
-- The store behind any number of connections.
use secretov.Prelude.{ℕ, Option, none, some, List, [], ◌∷◌, inl, inr, ◌==◌, Bool-cases}
use secretov.Prelude.Result.{Result-cases}
use secretov.Prelude.Text.{Text, lit}
use secretov.Daemon.{Arrival, serve_connection}
use secretov.Daemon.Loop.{Visit, serve_visit, connection_error, accept_loop}
use secretov.Daemon.Sound.{IsHealthy, OnTime, serve_lines-IsHealthy}
use secretov.Io.{World}
use secretov.Platform.{Platform, SodiumLaws}
use secretov.Store.{Store}
use secretov.Protocol.{error_response}

module _ (p : Platform) (laws : SodiumLaws p.sodium) where
  -- The clock at each line fits its 64 bits.
  abbrev pub AllOnTime : List (Option (Visit p)) → Type 0
  AllOnTime [] = Unit
  AllOnTime (none ∷ rest) = AllOnTime rest
  AllOnTime (some visit ∷ rest) = OnTime p visit.arrivals × AllOnTime rest

  serve_connection-IsHealthy :
      (peer_uid my_uid : ℕ) (expected : Text) (arrivals : List (Arrival p)) (s : Store p)
      (w : World)
      → OnTime p arrivals
      → IsHealthy p s w
      → IsHealthy p
          (serve_connection p peer_uid my_uid expected arrivals s w).store
          (serve_connection p peer_uid my_uid expected arrivals s w).world
  unfolding serve_connection
  serve_connection-IsHealthy peer_uid my_uid expected arrivals s w n h =
      elim (Bool-cases (peer_uid == my_uid)) [
        | inl ours ↦ rw ours (serve_lines-IsHealthy p laws expected arrivals s w n h)
        | inr other ↦
            elim (Result-cases
              (error_response p.json (lit "permission denied: peer uid mismatch"))) [
                | inl (reply, e) ↦ rw (other, e) h
                | inr (what, e) ↦ rw (other, e) h
              ]
      ]

  serve_visit-IsHealthy :
      (my_uid : ℕ) (expected : Text) (visit : Visit p) (s : Store p) (w : World)
      → OnTime p visit.arrivals
      → IsHealthy p s w
      → IsHealthy p
          (serve_visit p my_uid expected visit s w).store
          (serve_visit p my_uid expected visit s w).world
  unfolding serve_visit
  serve_visit-IsHealthy my_uid expected visit s w n h = elim (Result-cases visit.peer_uid) [
    | inr (what, e) ↦ rw e h
    | inl (peer_uid, e) ↦
        rw e (serve_connection-IsHealthy peer_uid my_uid expected visit.arrivals s w n h)
  ]

  told :
      (thrown : Option Text) (s : Store p) (w : World)
      → IsHealthy p s w
      → IsHealthy p s (connection_error p thrown w)
  unfolding connection_error
  told none s w h = h
  told (some what) s w h = h

  -- Through any number of connections, whoever their peers are, whatever they send, and whatever
  -- the system answers, failed accepts and exceptions included: a store that its file holds and
  -- that a passphrase unlocks is one at every point of the loop.
  pub accept_loop-IsHealthy :
      (my_uid : ℕ) (expected : Text) (visits : List (Option (Visit p))) (s : Store p) (w : World)
      → AllOnTime visits
      → IsHealthy p s w
      → IsHealthy p
          (accept_loop p my_uid expected visits s w).store
          (accept_loop p my_uid expected visits s w).world
  unfolding accept_loop
  accept_loop-IsHealthy my_uid expected [] s w n h = h
  accept_loop-IsHealthy my_uid expected (none ∷ rest) s w n h =
      accept_loop-IsHealthy my_uid expected rest s w n h
  accept_loop-IsHealthy my_uid expected (some visit ∷ rest) s w n h =
      let h' = serve_visit-IsHealthy my_uid expected visit s w n.0 h in
      let served = serve_visit p my_uid expected visit s w in
      accept_loop-IsHealthy my_uid expected rest served.store _ n.1 (told served.thrown _ _ h')
