-- ===== src/Protocol.antt =====
-- Requests and responses, one JSON object to a line (src/protocol.hpp).
use secretov.Prelude.{Option, none, some, true, false, List, [], ◌∷◌, ◌^◌, ℕ, map}
use secretov.Prelude.Map.{Map, lookup, insert}
use secretov.Prelude.Result.{Result, ok, err}
use secretov.Prelude.Text.{Text, lit}
use secretov.Platform.{Json}

abbrev pub max_request_bytes : ℕ
max_request_bytes = 2 ^ 20

-- kErrNotFound, kErrInvalidToken
unfoldable pub not_found : Text
unfolding lit
not_found = lit "not found"

unfoldable pub invalid_token : Text
unfolding lit
invalid_token = lit "invalid token"

pub record Request : Type 0 where
  pub token : Text
  pub op : Text
  pub key : Text
  pub value : Text
  pub old_pass : Text
  pub new_pass : Text

infixl 5 ◌>>=◌
abbrev ◌>>=◌ {ℓ κ} : {A : Type ℓ} {B : Type κ} → Option A → (A → Option B) → Option B
none >>= f = none
some a >>= f = f a

module _ (json : Json) where
  -- j.at(name).get<std::string>()
  required : Map json.Value → Text → Option Text
  required m name = do member ← lookup name m; json.as_string member

  -- j.value(name, std::string{})
  optional : Map json.Value → Text → Option Text
  optional m name = elim (lookup name m) [ none ↦ some [] | some member ↦ json.as_string member ]

  unfoldable pub parse_request : Text → Option Request
  unfolding required optional
  parse_request line = do
    j ← json.parse line
    m ← json.as_object j
    token ← required m (lit "token")
    op ← required m (lit "op")
    key ← optional m (lit "key")
    value ← optional m (lit "value")
    old_pass ← optional m (lit "old")
    new_pass ← optional m (lit "new")
    some (record {
      token = token;
      op = op;
      key = key;
      value = value;
      old_pass = old_pass;
      new_pass = new_pass;
    })

  -- dump() throws on invalid UTF-8.
  unfoldable pub dumped : Map json.Value → Result Text Text
  dumped m = elim (json.dump (json.object m)) [ none ↦ err json.invalid_utf8 | some t ↦ ok t ]

  unfoldable pub ok_response : Result Text Text
  ok_response = dumped ((lit "ok", json.boolean true) ∷ [])

  unfoldable pub ok_value : Text → Result Text Text
  ok_value value =
      dumped (insert (lit "value") (json.string value) ((lit "ok", json.boolean true) ∷ []))

  unfoldable pub ok_keys : List Text → Result Text Text
  ok_keys keys =
      dumped (
        insert (lit "keys") (json.array (map json.string keys))
          ((lit "ok", json.boolean true) ∷ []))

  unfoldable pub ok_values : Map Text → Result Text Text
  ok_values values = dumped (
      insert (lit "values") (json.object (map (λ (e : Text × Text). (e.0, json.string e.1)) values))
        ((lit "ok", json.boolean true) ∷ []))

  unfoldable pub error_response : Text → Result Text Text
  error_response msg =
      dumped (insert (lit "error") (json.string msg) ((lit "ok", json.boolean false) ∷ []))
