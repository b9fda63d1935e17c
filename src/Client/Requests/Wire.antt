-- ===== src/Client/Requests/Wire.antt =====
-- The lines between the client and the daemon: each reads what the other writes.
use secretov.Prelude.{◌≡◌, refl, Option, none, some, true, false, [], ◌∷◌, arith}
use secretov.Prelude.Map.{Map, lookup, insert}
use secretov.Prelude.Result.{Result, ok, err}
use secretov.Prelude.Text.{Text, lit, text_eq, text_lt, is_empty}
use secretov.Platform.{Json, JsonLaws}
use secretov.Backend.{Failure, runtime}
use secretov.Client.Requests.{
  make_request, check_size, serialize, parse_reply, accept_reply, is_ok, error_of,
}
use secretov.Protocol.{parse_request, dumped, ok_value, ok_response, error_response, not_found}

infixl 5 ◌>>=◌
abbrev ◌>>=◌ {ℓ κ} : {A : Type ℓ} {B : Type κ} → Option A → (A → Option B) → Option B
none >>= f = none
some a >>= f = f a

unfoldable pub or_empty : Option Text → Text
or_empty none = []
or_empty (some t) = t

-- resp["value"], where it is a string.
unfoldable pub value_of : (json : Json) → json.Value → Option Text
value_of json reply = do
  members ← json.as_object reply
  member ← lookup (lit "value") members
  json.as_string member

-- request_raw, with the line that was read.
unfoldable pub accept_line : (json : Json) → Text → Result Failure json.Value
accept_line json line = elim (parse_reply json line) [
  | err e ↦ err e
  | ok resp ↦ accept_reply json resp
]

-- What the store gives for a key, as the client sees it.
unfoldable pub Gets : (json : Json) → Option Text → Result Failure json.Value → Type 0
Gets json none result = result ≡ err (runtime not_found)
Gets json (some value) (ok reply) = value_of json reply ≡ some value
Gets json (some value) (err e) = ⊥

module _ (json : Json) (laws : JsonLaws json) where
  parse-dumped :
      (m : Map json.Value) (line : Text)
      → dumped json m ≡ ok line
      → json.parse line ≡ some (json.object m)
  unfolding dumped
  parse-dumped m line h = laws.parse-dump (json.object m) line (ground (arith, h))

  serialize-dumped :
      (token line : Text) (req : Map json.Value)
      → serialize json token req ≡ ok line
      → dumped json (insert (lit "token") (json.string token) req) ≡ ok line
  unfolding serialize check_size
  serialize-dumped token line req h = ground (arith, h)

  parse_request-members :
      (token op key : Text) (value : Option Text) (line : Text)
      → json.parse line
        ≡ some (
            json.object (insert (lit "token") (json.string token) (make_request json op key value)))
      → parse_request json line
        ≡ some (record {
          token = token;
          op = op;
          key = key;
          value = or_empty value;
          old_pass = [];
          new_pass = [];
        })
  unfolding parse_request make_request lit text_eq text_lt lookup insert or_empty is_empty
  parse_request-members token op [] none line h =
      rw
        (
          parse_request,
          h,
          laws.as_object-object,
          laws.as_string-string token,
          laws.as_string-string op,
        )
        refl
  parse_request-members token op [] (some v) line h =
      rw
        (
          parse_request,
          h,
          laws.as_object-object,
          laws.as_string-string token,
          laws.as_string-string op,
          laws.as_string-string v,
        )
        refl
  parse_request-members token op (c ∷ key) none line h =
      rw
        (
          parse_request,
          h,
          laws.as_object-object,
          laws.as_string-string token,
          laws.as_string-string op,
          laws.as_string-string (c ∷ key),
        )
        refl
  parse_request-members token op (c ∷ key) (some v) line h =
      rw
        (
          parse_request,
          h,
          laws.as_object-object,
          laws.as_string-string token,
          laws.as_string-string op,
          laws.as_string-string (c ∷ key),
          laws.as_string-string v,
        )
        refl

  value_of-ok_value :
      (value : Text)
      → value_of json (
          json.object
            (insert (lit "value") (json.string value) ((lit "ok", json.boolean true) ∷ [])))
        ≡ some value
  unfolding value_of lit text_eq text_lt lookup insert
  value_of-ok_value value = rw (laws.as_object-object, laws.as_string-string value) refl

  -- The daemon reads the client's request back.
  pub parse_request-serialize :
      (token op key line : Text) (value : Option Text)
      → serialize json token (make_request json op key value) ≡ ok line
      → parse_request json line
        ≡ some (record {
          token = token;
          op = op;
          key = key;
          value = or_empty value;
          old_pass = [];
          new_pass = [];
        })
  parse_request-serialize token op key line value h =
      parse_request-members token op key value line
        (parse-dumped _ line (serialize-dumped token line (make_request json op key value) h))

  pub accept_reply-value :
      (value line : Text)
      → ok_value json value ≡ ok line
      → Gets json (some value) (accept_line json line)
  unfolding ok_value accept_line parse_reply accept_reply is_ok lit text_eq text_lt lookup insert
      Gets value_of
  accept_reply-value value line h =
      let e = parse-dumped _ line h in
      rw (accept_line, e, accept_reply, laws.as_object-object, laws.as_boolean-boolean true)
        (value_of-ok_value value)

  pub accept_reply-ok :
      (line : Text)
      → ok_response json ≡ ok line
      → (reply : json.Value) × (accept_line json line ≡ ok reply)
  unfolding ok_response accept_line parse_reply accept_reply is_ok lit text_eq text_lt lookup insert
  accept_reply-ok line h =
      let e = parse-dumped _ line h in
      rw (accept_line, e, accept_reply, laws.as_object-object, laws.as_boolean-boolean true)
        (_, refl)

  pub accept_reply-error :
      (what line : Text)
      → error_response json what ≡ ok line
      → accept_line json line ≡ err (runtime what)
  unfolding error_response accept_line parse_reply accept_reply is_ok error_of lit text_eq text_lt
      lookup insert
  accept_reply-error what line h =
      let e = parse-dumped _ line h in
      rw
        (
          accept_line,
          e,
          accept_reply,
          laws.as_object-object,
          laws.as_boolean-boolean false,
          laws.as_string-string what,
        )
        refl
