-- ===== src/Client/Requests/Served.antt =====
-- The client's requests, answered by the daemon on one store.
use secretov.Prelude.{
  ℕ, ◌≡◌, sym, ap, ◌∙◌, ◌⊎◌, refl, Option, none, some, true, false, [], ==_iff, arith, inl, inr,
  if◌then◌else◌,
}
use secretov.Prelude.Map.{Map}
use secretov.Prelude.Result.{Result, ok, err, Result-cases}
use secretov.Prelude.Text.{Text, lit, text_eq, text_eq_refl, is_empty}
use secretov.Platform.{Platform, Json, JsonLaws}
use secretov.Io.{World}
use secretov.Backend.{Failure, runtime}
use secretov.Client.Requests.{
  Exchange, make_request, send, send_to, send_line, serialize, request_raw, request,
}
use secretov.Client.Requests.Wire.{
  accept_line, Gets, parse_request-serialize, accept_reply-value, accept_reply-ok,
  accept_reply-error, or_empty,
}
use secretov.Daemon.{token_matches, got, dispatch, guarded, answer, reads, handle_line, respond}
use secretov.Protocol.{Request, not_found, dumped, ok_response, ok_value, error_response}
use secretov.Store.{Store, Run, get, set}
use secretov.Store.Contents.{get-set}
use secretov.Store.Reopen.{IsStored}

-- An exchange with a daemon of ours that gets the line and writes this reply. One that throws
-- instead closes the connection.
unfoldable pub answering : ℕ → Result Text Text → Exchange
answering uid reply = record {
  connects = true;
  peer_uid = ok uid;
  set_timeout = ok tt;
  is_sent = true;
  reply = elim reply [ ok line ↦ some line | err what ↦ none ];
  timed_out = false;
}

-- What the store gives for a key, as the client sees it: an exception of the store arrives as its
-- text.
unfoldable pub Reads :
    (json : Json) → Result Text (Option Text) → Result Failure json.Value → Type 0
Reads json (ok stored) result = Gets json stored result
Reads json (err what) result = result ≡ err (runtime what)

module _ (p : Platform) (token : Text) (now : ℕ) (s : Store p) (w : World) where
  -- What the daemon does with the client's line.
  unfoldable pub handled : Text → Run p Text
  handled line = handle_line p token s (record { line = line; now = now; writable = true }) w

  -- The client's call with the daemon behind the socket.
  unfoldable pub called : Text → ℕ → Text → Text → Option Text → Text → Result Failure p.json.Value
  called socket_path uid op key value line =
      (request p.json socket_path token op key value uid
        (answering uid (handled line).result)).result

  abbrev read_back : Text → Text → Option Text → Request
  read_back op key value = record {
    token = token;
    op = op;
    key = key;
    value = or_empty value;
    old_pass = [];
    new_pass = [];
  }

  module _ (laws : JsonLaws p.json) (socket_path : Text) (uid : ℕ) where
    called-accept_line :
        (op key line reply : Text) (value : Option Text)
        → serialize p.json token (make_request p.json op key value) ≡ ok line
        → (handled line).result ≡ ok reply
        → called socket_path uid op key value line ≡ accept_line p.json reply
    unfolding called request request_raw send answering accept_line send_to send_line
    called-accept_line op key line reply value h r =
        rw (called, send_to, (==_iff uid uid).1 refl, h, r) refl

    token_matches_refl : token_matches token token ≡ true
    unfolding token_matches
    token_matches_refl = ground (arith, text_eq_refl token)

    handled-dispatch :
        (op key line : Text) (value : Option Text)
        → serialize p.json token (make_request p.json op key value) ≡ ok line
        → handled line
          ≡ guarded p (read_back op key value) (dispatch p s (read_back op key value) now w)
    unfolding handled handle_line answer
    handled-dispatch op key line value h =
        rw
          (
            handle_line,
            parse_request-serialize p.json laws token op key line value h,
            answer,
            token_matches_refl,
          )
          refl

    got-Reads :
        (reply : Text) (stored : Result Text (Option Text))
        → got p stored ≡ ok reply
        → Reads p.json stored (accept_line p.json reply)
    unfolding got Reads Gets
    got-Reads reply (ok none) h = accept_reply-error p.json laws not_found reply h
    got-Reads reply (ok (some value)) h = accept_reply-value p.json laws value reply h
    got-Reads reply (err what) h = cc

    dumped-err :
        (m : Map p.json.Value) (what : Text)
        → dumped p.json m ≡ err what
        → what ≡ p.json.invalid_utf8
    unfolding dumped
    dumped-err m what h = ground (arith, h)

    got-err :
        (stored : Result Text (Option Text)) (what : Text)
        → got p stored ≡ err what
        → (stored ≡ err what) ⊎ (what ≡ p.json.invalid_utf8)
    unfolding got error_response ok_value
    got-err (ok none) what h = inr (dumped-err _ what h)
    got-err (ok (some value)) what h = inr (dumped-err _ what h)
    got-err (err e) what h = inl (cc h)

    guarded-got :
        (req : Request) (stored : Result Text (Option Text)) (reply : Text)
        → (guarded p req (reads p s w (got p stored))).result ≡ ok reply
        → Reads p.json stored (accept_line p.json reply)
          ⊎ (accept_line p.json reply ≡ err (runtime p.json.invalid_utf8))
    unfolding guarded Reads
    guarded-got req stored reply r = elim (Result-cases (got p stored)) [
      | inl (found, e) ↦ inl (got-Reads reply stored (ground (arith, e, r)))
      | inr (what, e) ↦
          let told = accept_reply-error p.json laws what reply (ground (arith, e, r)) in
          elim (got-err stored what e) [
            | inl f ↦ inl (rw f told)
            | inr f ↦ inr (told ∙ ap (λ (t : Text). err (runtime t)) f)
          ]
    ]

    dispatch-get :
        (key : Text)
        → is_empty key ≡ false
        → dispatch p s (read_back (lit "get") key none) now w ≡ reads p s w (got p (get p s key))
    unfolding dispatch lit text_eq
    dispatch-get key k = rw k refl

    -- A get that the daemon replies to gives the client what the store has for the key: the value,
    -- or the exception "not found" if there is none, or the store's own exception; unless that
    -- reply cannot be printed, which the client is told.
    pub get-called :
        (key line reply : Text)
        → serialize p.json token (make_request p.json (lit "get") key none) ≡ ok line
        → is_empty key ≡ false
        → (handled line).result ≡ ok reply
        → Reads p.json (get p s key) (called socket_path uid (lit "get") key none line)
          ⊎ (called socket_path uid (lit "get") key none line ≡ err (runtime p.json.invalid_utf8))
    get-called key line reply h k r = rw (called-accept_line (lit "get") key line reply none h r) (
        guarded-got (read_back (lit "get") key none) (get p s key) reply (
          ap (λ (run : Run p Text). (guarded p (read_back (lit "get") key none) run).result)
            (sym (dispatch-get key k))
          ∙ ap (λ (run : Run p Text). run.result)
              (sym (handled-dispatch (lit "get") key line none h))
          ∙ r))

    dispatch-set :
        (key value : Text)
        → is_empty key ≡ false
        → dispatch p s (read_back (lit "set") key (some value)) now w
          ≡ respond p (set p s key value w) (λ u. ok_response p.json)
    unfolding dispatch lit text_eq or_empty
    dispatch-set key value k = rw k refl

    handled-set :
        (key line value : Text)
        → serialize p.json token (make_request p.json (lit "set") key (some value)) ≡ ok line
        → is_empty key ≡ false
        → handled line
          ≡ guarded p
              (read_back (lit "set") key (some value))
              (respond p (set p s key value w) (λ u. ok_response p.json))
    handled-set key line value h k =
        handled-dispatch (lit "set") key line (some value) h
        ∙ ap (guarded p (read_back (lit "set") key (some value))) (dispatch-set key value k)

    acknowledged-respond :
        (req : Request) (run : Run p (Unit {0})) (u : Unit {0}) (acknowledged : Text)
        → run.result ≡ ok u
        → ok_response p.json ≡ ok acknowledged
        → let replied = guarded p req (respond p run (λ v. ok_response p.json)) in
          (replied.result ≡ ok_response p.json) × (replied.store ≡ run.store)
    unfolding guarded respond
    acknowledged-respond req run u acknowledged f a = (ground (arith, f, a), ground (arith, f, a))

    refused-respond :
        (req : Request) (run : Run p (Unit {0})) (what : Text)
        → run.result ≡ err what
        → let replied = guarded p req (respond p run (λ v. ok_response p.json)) in
          (replied.result ≡ error_response p.json what) × (replied.store ≡ run.store)
    unfolding guarded respond
    refused-respond req run what f = (rw (guarded, f) refl, rw (guarded, f) refl)

    -- The daemon can always print {"ok":true}. Then a set that it replies to either succeeds for
    -- the client, and every later get of the store gives the new value for its key and what it
    -- gave before for every other key; or throws what the store threw, and every later get gives
    -- what it gave before.
    pub set-called :
        (key line value reply acknowledged : Text)
        → serialize p.json token (make_request p.json (lit "set") key (some value)) ≡ ok line
        → is_empty key ≡ false
        → (handled line).result ≡ ok reply
        → ok_response p.json ≡ ok acknowledged
        → IsStored p s w.disk
        → ((resp : p.json.Value) × (called socket_path uid (lit "set") key (some value) line
              ≡ ok resp)
            × ((j : Text)
                → get p (handled line).store j
                  ≡ (if text_eq key j then ok (some value) else get p s j)))
          ⊎ ((what : Text) × (called socket_path uid (lit "set") key (some value) line
                ≡ err (runtime what))
              × ((j : Text) → get p (handled line).store j ≡ get p s j))
    set-called key line value reply acknowledged h k r a stored =
        let e = handled-set key line value h k in
        let c = called-accept_line (lit "set") key line reply (some value) h r in
        let seen = get-set p s w stored laws key value in
        let run = set p s key value w in
        let replied = ap (λ (m : Run p Text). m.result) (sym e) ∙ r in
        let same = ap (λ (m : Run p Text). m.store) e in
        let req = read_back (lit "set") key (some value) in
        elim (Result-cases run.result) [
          | inl (u, f) ↦
              let (x, y) = acknowledged-respond req run u acknowledged f a in
              let (resp, g) = accept_reply-ok p.json laws reply (sym x ∙ replied) in
              inl (resp, c ∙ g, λ j. ap (λ t. get p t j) (same ∙ y) ∙ (seen j ∙ rw f refl))
          | inr (what, f) ↦
              let (x, y) = refused-respond req run what f in
              let g = accept_reply-error p.json laws what reply (sym x ∙ replied) in
              inr (what, c ∙ g, λ j. ap (λ t. get p t j) (same ∙ y) ∙ (seen j ∙ rw f refl))
        ]
