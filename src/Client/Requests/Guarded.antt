-- ===== src/Client/Requests/Guarded.antt =====
-- To whom a request is sent, and what its failure says.
use secretov.Prelude.{
  ◌∙◌, ap, ==_iff, ℕ, ◌≤◌, ◌≡◌, refl, Option, Bool, false, [], ◌∷◌, length, ◌==◌, arith, Bool-cases,
  inl, inr,
}
use secretov.Prelude.Map.{Map}
use secretov.Prelude.Result.{Result, ok, err, Result-cases}
use secretov.Prelude.Text.{Text}
use secretov.Platform.{Json}
use secretov.Backend.{Failure, unanswered, is_sent}
use secretov.Client.Requests.{
  Exchange, Sent, timeout_of, unsent, make_request, check_size, serialize, send_line, send_to, send,
  accept_reply, request_raw, request,
}
use secretov.Protocol.{max_request_bytes}

-- A failure that says that the request may have been applied.
unfoldable pub may_be_applied : Failure → Bool
may_be_applied (unanswered what stage timed_out seconds) = is_sent stage
may_be_applied _ = false

module _ (json : Json) (token : Text) (req : Map json.Value) (my_uid : ℕ)
    (exchange : Exchange) where
  -- Nothing whole was sent, and no failure says otherwise; or the one line of the request was, to a
  -- peer of ours, and it is not longer than the daemon takes.
  pub data IsGuarded {ℓ} {A : Type ℓ} : Sent A → Type ℓ where
    silent :
        (failure : Failure)
        → may_be_applied failure ≡ false
        → IsGuarded (record { lines = []; result = err failure })
    spoken :
        (line : Text) (result : Result Failure A)
        → exchange.peer_uid ≡ ok my_uid
        → serialize json token req ≡ ok line
        → length line ≤ max_request_bytes
        → IsGuarded (record { lines = line ∷ []; result = result })

  serialize-bound :
      (line : Text) → serialize json token req ≡ ok line → length line ≤ max_request_bytes
  unfolding serialize check_size
  serialize-bound line h = ground (arith, h)

  serialize-silent :
      (failure : Failure) → serialize json token req ≡ err failure → may_be_applied failure ≡ false
  unfolding serialize check_size may_be_applied
  serialize-silent failure h = ground (arith, h)

  send_line-IsGuarded :
      (op : Text) (seconds : ℕ) (line : Text)
      → exchange.peer_uid ≡ ok my_uid
      → serialize json token req ≡ ok line
      → IsGuarded (send_line json op seconds exchange line)
  unfolding send_line unsent may_be_applied is_sent
  send_line-IsGuarded op seconds line ours e = elim (Bool-cases exchange.is_sent) [
    | inl f ↦ rw (send_line, f) (spoken line _ ours e (serialize-bound line e))
    | inr f ↦ rw (send_line, unsent, f) (silent _ refl)
  ]

  send_to-IsGuarded :
      (peer_uid : ℕ) (socket_path op : Text)
      → exchange.peer_uid ≡ ok peer_uid
      → IsGuarded (send_to json peer_uid socket_path token req my_uid op exchange)
  unfolding send_to may_be_applied
  send_to-IsGuarded peer_uid socket_path op ours = elim (Bool-cases (peer_uid == my_uid)) [
    | inr f ↦ rw (send_to, f) (silent _ refl)
    | inl f ↦ elim (Result-cases (serialize json token req)) [
      | inl (line, e) ↦
          rw (send_to, f, e)
            (send_line-IsGuarded op (timeout_of op) line
              (ours ∙ ap ok ((==_iff peer_uid my_uid).0 f)) e)
      | inr (failure, e) ↦ rw (send_to, f, e) (silent failure (serialize-silent failure e))
    ]
  ]

  send-IsGuarded :
      (socket_path op : Text) → IsGuarded (send json socket_path token op req my_uid exchange)
  unfolding send may_be_applied is_sent
  send-IsGuarded socket_path op = elim (Bool-cases exchange.connects) [
    | inr f ↦ rw (send, f) (silent _ refl)
    | inl f ↦ elim (Result-cases exchange.set_timeout) [
      | inr (what, g) ↦ rw (send, f, g) (silent _ refl)
      | inl (u, g) ↦ elim (Result-cases exchange.peer_uid) [
        | inr (what, h) ↦ rw (send, f, g, h) (silent _ refl)
        | inl (peer_uid, h) ↦ simp (send, f, g, h) (send_to-IsGuarded peer_uid socket_path op h)
      ]
    ]
  ]

  then_accept {ℓ κ} :
      {A : Type ℓ} {B : Type κ} (reply : Sent A) (f : A → Result Failure B)
      → IsGuarded reply
      → IsGuarded (record {
        lines = reply.lines;
        result = elim reply.result [ err e ↦ err e | ok a ↦ f a ];
      })
  then_accept _ f (silent failure h) = silent failure h
  then_accept _ f (spoken line result ours e bound) = spoken line _ ours e bound

  pub request_raw-IsGuarded :
      (socket_path op : Text)
      → IsGuarded (request_raw json socket_path token op req my_uid exchange)
  unfolding request_raw
  request_raw-IsGuarded socket_path op =
      then_accept _ (accept_reply json) (send-IsGuarded socket_path op)

-- Whatever the system and the peer answer: either no whole request leaves the client, and the
-- failure is not one that says the request may have been applied; or exactly one line leaves it,
-- the peer runs under the client's own uid, the line is the request with the token printed, and it
-- is not longer than the daemon takes.
pub request-IsGuarded :
    (json : Json) (socket_path token op key : Text) (value : Option Text) (my_uid : ℕ)
    (exchange : Exchange)
    → IsGuarded json token
        (make_request json op key value)
        my_uid
        exchange
        (request json socket_path token op key value my_uid exchange)
unfolding request
request-IsGuarded json socket_path token op key value my_uid exchange =
    request_raw-IsGuarded json token (make_request json op key value) my_uid exchange socket_path op
