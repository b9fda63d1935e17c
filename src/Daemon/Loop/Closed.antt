-- ===== src/Daemon/Loop/Closed.antt =====
-- Peers without the token change nothing, over any number of connections.
use secretov.Prelude.{
  ℕ, ◌≡◌, refl, ap, ◌∙◌, Option, none, some, List, [], ◌∷◌, inl, inr, ◌==◌, ==_iff, Bool-cases,
}
use secretov.Prelude.Result.{ok, Result-cases}
use secretov.Prelude.Text.{Text, lit}
use secretov.Daemon.{Arrival, serve_connection}
use secretov.Daemon.Auth.{AllDenied, serve_lines-denied}
use secretov.Daemon.Loop.{Visit, serve_visit, connection_error, accept_loop}
use secretov.Io.{World}
use secretov.Platform.{Platform}
use secretov.Store.{Store}
use secretov.Protocol.{error_response}

module _ (p : Platform) (my_uid : ℕ) (expected : Text) where
  -- The peer is of another user or cannot be asked for, or none of its lines is a request with the
  -- token.
  abbrev pub IsOutside : Visit p → Type 0
  IsOutside visit = (visit.peer_uid ≡ ok my_uid) → AllDenied p expected visit.arrivals

  abbrev pub AllOutside : List (Option (Visit p)) → Type 0
  AllOutside [] = Unit
  AllOutside (none ∷ rest) = AllOutside rest
  AllOutside (some visit ∷ rest) = IsOutside visit × AllOutside rest

  serve_connection-closed :
      (peer_uid : ℕ) (arrivals : List (Arrival p)) (s : Store p) (w : World)
      → (peer_uid ≡ my_uid → AllDenied p expected arrivals)
      → ((serve_connection p peer_uid my_uid expected arrivals s w).store ≡ s)
        × ((serve_connection p peer_uid my_uid expected arrivals s w).world ≡ w)
  unfolding serve_connection
  serve_connection-closed peer_uid arrivals s w d = elim (Bool-cases (peer_uid == my_uid)) [
    | inl ours ↦
        rw ours (serve_lines-denied p expected arrivals s w (d ((==_iff peer_uid my_uid).0 ours)))
    | inr other ↦
        elim (Result-cases (error_response p.json (lit "permission denied: peer uid mismatch"))) [
          | inl (reply, e) ↦ rw (other, e) (refl, refl)
          | inr (what, e) ↦ rw (other, e) (refl, refl)
        ]
  ]

  serve_visit-closed :
      (visit : Visit p) (s : Store p) (w : World)
      → IsOutside visit
      → ((serve_visit p my_uid expected visit s w).store ≡ s)
        × ((serve_visit p my_uid expected visit s w).world ≡ w)
  unfolding serve_visit
  serve_visit-closed visit s w d = elim (Result-cases visit.peer_uid) [
    | inr (what, e) ↦ rw e (refl, refl)
    | inl (peer_uid, e) ↦
        rw e (serve_connection-closed peer_uid visit.arrivals s w (λ same. d (e ∙ ap ok same)))
  ]

  told-disk : (thrown : Option Text) (w : World) → (connection_error p thrown w).disk ≡ w.disk
  unfolding connection_error
  told-disk none w = refl
  told-disk (some what) w = refl

  -- However many connections come, if each is of another user, or sends no request with the
  -- daemon's token, or has a peer that cannot be told: the store and every file stay as they were.
  pub accept_loop-closed :
      (visits : List (Option (Visit p))) (s : Store p) (w : World)
      → AllOutside visits
      → ((accept_loop p my_uid expected visits s w).store ≡ s)
        × ((accept_loop p my_uid expected visits s w).world.disk ≡ w.disk)
  unfolding accept_loop
  accept_loop-closed [] s w d = (refl, refl)
  accept_loop-closed (none ∷ rest) s w d = accept_loop-closed rest s w d
  accept_loop-closed (some visit ∷ rest) s w d =
      let served = serve_visit p my_uid expected visit s w in
      let (same, unchanged) = serve_visit-closed visit s w d.0 in
      let (same', unchanged') =
        accept_loop-closed rest served.store (connection_error p served.thrown served.world) d.1 in
      (
        same' ∙ same,
        unchanged' ∙ (told-disk served.thrown served.world ∙ ap (λ (v : World). v.disk) unchanged),
      )
