-- ===== src/Daemon.antt =====
-- The daemon (src/daemon.cpp): the token check, the dispatch of a request to the store, the loop
-- that serves a connection, and the start-up before the socket is bound.
pub mod Auth
pub mod Rounds
pub mod Sound
pub mod Startup
pub mod Loop
use secretov.Prelude.{
  ℕ, ◌+◌, ◌-◌, ◌*◌, Option, none, some, Bool, true, false, not, ◌&&◌, ◌||◌, List, [], ◌∷◌, ◌++◌,
  length, ltb, ◌==◌, if◌then◌else◌, String,
}
use secretov.Prelude.Map.{Map}
use secretov.Prelude.Result.{Result, ok, err}
use secretov.Prelude.Text.{Text, lit, text_eq, is_empty, to_string}
use secretov.Platform.{Platform}
use secretov.Io.{World, Io, pure, throw, report, ◌>>=◌, ◌>>◌}
use secretov.Files.{read_file_string}
use secretov.Protocol.{
  Request, parse_request, ok_response, ok_value, ok_keys, ok_values, error_response, not_found,
  invalid_token,
}
use secretov.Store.{
  Store, Run, open_store, get, set, remove, list, get_prefix, rotate, change_passphrase,
}

-- sodium_memcmp tells whether two buffers of one size hold the same bytes.
unfoldable pub token_matches : Text → Text → Bool
token_matches expected got = length expected == length got && text_eq expected got

module _ (p : Platform) where
  -- A call of the store that throws leaves the handler with the exception.
  unfoldable pub respond : {A : Type 0} → Run p A → (A → Result Text Text) → Run p Text
  respond run reply = record {
    result = elim run.result [ ok a ↦ reply a | err e ↦ err e ];
    store = run.store;
    world = run.world;
  }

  -- The handlers that only read.
  abbrev pub reads : Store p → World → Result Text Text → Run p Text
  reads s w r = record { result = r; store = s; world = w }

  unfoldable pub got : Result Text (Option Text) → Result Text Text
  got (ok none) = error_response p.json not_found
  got (ok (some value)) = ok_value p.json value
  got (err e) = err e

  scope_values : Result Text (Map Text) → Result Text Text
  scope_values (ok values) = ok_values p.json values
  scope_values (err e) = err e

  removed : Bool → Result Text Text
  removed true = ok_response p.json
  removed false = error_response p.json not_found

  unfoldable pub dispatch : Store p → Request → ℕ → World → Run p Text
  unfolding got scope_values removed respond
  dispatch s req now w =
      let missing = λ (what : String). reads s w (error_response p.json (lit what)) in
      if text_eq req.op (lit "get")
      then (if is_empty req.key then missing "missing key" else reads s w (got (get p s req.key)))
      else if text_eq req.op (lit "set")
      then (if is_empty req.key
          then missing "missing key"
          else respond (set p s req.key req.value w) (λ _. ok_response p.json))
      else if text_eq req.op (lit "delete")
      then (if is_empty req.key
          then missing "missing key"
          else respond (remove p s req.key w) removed)
      else if text_eq req.op (lit "list")
      then reads s w (ok_keys p.json (list p s))
      else if text_eq req.op (lit "getprefix")
      then (if is_empty req.key
          then missing "missing prefix"
          else reads s w (scope_values (get_prefix p s req.key)))
      else if text_eq req.op (lit "rotate")
      then (if is_empty req.old_pass
          then missing "missing passphrase"
          else respond (rotate p s req.old_pass now w) (λ _. ok_response p.json))
      else if text_eq req.op (lit "passwd")
      then (if is_empty req.old_pass || is_empty req.new_pass
          then missing "missing passphrase"
          else respond (change_passphrase p s req.old_pass req.new_pass now w)
              (λ _. ok_response p.json))
      else reads s w (error_response p.json (lit "unknown op: " ++ req.op))

  -- dispatch inside the handler's try block: an exception is reported, and becomes the reply.
  unfoldable pub guarded : Request → Run p Text → Run p Text
  guarded req run = elim run.result [
    | ok reply ↦ run
    | err e ↦ record {
      result = error_response p.json e;
      store = run.store;
      world = record run.world {
        stderr =
            run.world.stderr ++ (lit "secretov: error handling '" ++ req.op ++ lit "': " ++ e) ∷ [];
      };
    }
  ]

  unfoldable pub answer : Text → Store p → Request → ℕ → World → Run p Text
  unfolding guarded
  answer expected_token s req now w =
      if not (token_matches expected_token req.token)
      then reads s w (error_response p.json invalid_token)
      else guarded req (dispatch s req now w)

  -- A line that arrives, the clock at that time, and whether the reply can be written.
  pub record Arrival : Type 0 where
    pub line : Text
    pub now : ℕ
    pub writable : Bool

  -- The replies written, the store and the world behind them, and the exception that ended it.
  pub record Served : Type 0 where
    pub replies : List Text
    pub store : Store p
    pub world : World
    pub thrown : Option Text

  -- The end of one round: a throw ends the loop, and so does a failed write unless the line was
  -- malformed.
  pub after_reply : Run p Text → Bool → Bool → (Store p → World → Served) → Served
  after_reply run writable goes_on rest = elim run.result [
    | err e ↦ record { replies = []; store = run.store; world = run.world; thrown = some e }
    | ok reply ↦
        let later = rest run.store run.world in
        if writable
        then record later { replies = reply ∷ later.replies }
        else if goes_on
        then later
        else record { replies = []; store = run.store; world = run.world; thrown = none }
  ]

  -- What one line gives: a malformed one is answered, whether or not the peer can be written to.
  unfoldable pub handle_line : Text → Store p → Arrival → World → Run p Text
  unfolding answer
  handle_line expected_token s a w = elim (parse_request p.json a.line) [
    | none ↦ reads s w (error_response p.json (lit "malformed request"))
    | some req ↦ answer expected_token s req a.now w
  ]

  goes_on_after : Arrival → Bool
  goes_on_after a = elim (parse_request p.json a.line) [ none ↦ true | some req ↦ false ]

  unfoldable pub serve_lines : Text → List Arrival → Store p → World → Served
  unfolding after_reply goes_on_after
  serve_lines expected_token [] s w = record { replies = []; store = s; world = w; thrown = none }
  serve_lines expected_token (a ∷ rest) s w =
      after_reply (handle_line expected_token s a w) a.writable (goes_on_after a)
        (serve_lines expected_token rest)

  unfoldable pub serve_connection : ℕ → ℕ → Text → List Arrival → Store p → World → Served
  serve_connection peer_uid my_uid expected_token arrivals s w =
      if not (peer_uid == my_uid)
      then elim (error_response p.json (lit "permission denied: peer uid mismatch")) [
        | ok reply ↦ record { replies = reply ∷ []; store = s; world = w; thrown = none }
        | err e ↦ record { replies = []; store = s; world = w; thrown = some e }
      ]
      else serve_lines expected_token arrivals s w
