-- ===== src/Daemon/Auth.antt =====
-- Without the token, and from another user, nothing is changed.
use secretov.Prelude.{
  ℕ, ◌≡◌, ◌≢◌, ◌↔◌, refl, Option, none, some, true, List, [], ◌∷◌, arith, inl, inr, Option-cases,
}
use secretov.Prelude.Text.{Text, text_eq_iff}
use secretov.Platform.{Platform}
use secretov.Io.{World}
use secretov.Protocol.{Request, parse_request}
use secretov.Store.{Store}
use secretov.Daemon.Rounds.{after_reply_keeps}
use secretov.Daemon.{token_matches, answer, Arrival, handle_line, serve_lines, serve_connection}

-- A request is let through exactly with the daemon's token.
pub token_matches_iff :
    (expected got : Text) → (token_matches expected got ≡ true) ↔ (expected ≡ got)
unfolding token_matches
token_matches_iff expected got = ground (arith, text_eq_iff expected got)

module _ (p : Platform) where
  -- The line holds no request, or one with another token.
  abbrev IsDenied : Text → Option Request → Type 0
  IsDenied expected none = Unit
  IsDenied expected (some req) = expected ≢ req.token

  abbrev pub AllDenied : Text → List (Arrival p) → Type 0
  AllDenied expected [] = Unit
  AllDenied expected (a ∷ rest) =
      IsDenied expected (parse_request p.json a.line) × AllDenied expected rest

  handle_line-denied :
      (expected : Text) (s : Store p) (a : Arrival p) (w : World)
      → IsDenied expected (parse_request p.json a.line)
      → ((handle_line p expected s a w).store ≡ s) × ((handle_line p expected s a w).world ≡ w)
  unfolding handle_line
  handle_line-denied expected s a w h = elim (Option-cases (parse_request p.json a.line)) [
    | inl e ↦ rw (e, handle_line) (refl, refl)
    | inr (req, e) ↦ rw (e, handle_line) (denied req (rw e at h))
  ]
    where
      denied :
          (req : Request)
          → expected ≢ req.token
          → ((answer p expected s req a.now w).store ≡ s)
            × ((answer p expected s req a.now w).world ≡ w)
      denied req h = ground (arith, token_matches_iff expected req.token)

  -- Whatever lines a peer sends, none of which is a request with the daemon's token: the store, the
  -- files and stderr stay as they are.
  pub serve_lines-denied :
      (expected : Text) (arrivals : List (Arrival p)) (s : Store p) (w : World)
      → AllDenied expected arrivals
      → ((serve_lines p expected arrivals s w).store ≡ s)
        × ((serve_lines p expected arrivals s w).world ≡ w)
  unfolding serve_lines
  serve_lines-denied expected [] s w h = (refl, refl)
  serve_lines-denied expected (a ∷ rest) s w h =
      let (same, unchanged) = handle_line-denied expected s a w h.0 in
      let (same', unchanged') = serve_lines-denied expected rest s w h.1 in
      after_reply_keeps p (λ s' w'. (s' ≡ s) × (w' ≡ w)) (handle_line p expected s a w) _ _
        (serve_lines p expected rest) (same, unchanged) (rw (same, unchanged) (same', unchanged'))

  -- A peer of another user gets one reply at most, and changes nothing, whatever it sends.
  serve_connection-foreign :
      (peer my : ℕ) (expected : Text) (arrivals : List (Arrival p)) (s : Store p) (w : World)
      → peer ≢ my
      → ((serve_connection p peer my expected arrivals s w).store ≡ s)
        × ((serve_connection p peer my expected arrivals s w).world ≡ w)
  unfolding serve_connection
  serve_connection-foreign peer my expected arrivals s w h = ground arith
