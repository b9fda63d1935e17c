-- ===== src/Client/Requests.antt =====
-- The requests of the daemon client (DaemonClient of src/client.cpp): one connection for each.
pub mod Guarded
pub mod Wire
pub mod Served
use secretov.Prelude.{
  ℕ, ◌*◌, ◌^◌, Option, none, some, Bool, true, false, not, ◌||◌, ◌&&◌, List, [], ◌∷◌, ◌++◌, ◌==◌,
  ltb, length, if◌then◌else◌,
}
use secretov.Prelude.Map.{Map, lookup, insert}
use secretov.Prelude.Result.{Result, ok, err, ◌>>=◌}
use secretov.Prelude.Text.{Text, lit, text_eq, is_empty, to_string}
use secretov.Platform.{Platform, Json}
use secretov.Backend.{
  Stage, not_running, not_sent, sent, Failure, unanswered, runtime, other_failure,
}
use secretov.Daemon.Startup.{rstrip}
use secretov.Files.{read_file_string}
use secretov.Io.{World, Io}
use secretov.Protocol.{max_request_bytes, dumped}

abbrev pub max_response_bytes : ℕ
max_response_bytes = 64 * 2 ^ 20

abbrev pub reply_timeout_seconds : ℕ
reply_timeout_seconds = 5

abbrev pub kdf_reply_timeout_seconds : ℕ
kdf_reply_timeout_seconds = 60

unfoldable pub timeout_of : Text → ℕ
timeout_of op =
    if text_eq op (lit "rotate") || text_eq op (lit "passwd")
    then kdf_reply_timeout_seconds
    else reply_timeout_seconds

unfoldable pub no_reply : ℕ → Text
no_reply seconds = lit "no reply within " ++ (to_string seconds ++ lit " s")

unfoldable pub is_read_only : Text → Bool
is_read_only op =
    text_eq op (lit "get") || (text_eq op (lit "list") || text_eq op (lit "getprefix"))

-- What the system and the peer do on one connection: whether it is made, the peer's uid or the
-- error that asking for it gives, whether the request is sent, and the line that is read back, if
-- one is.
pub record Exchange : Type 0 where
  pub connects : Bool
  pub peer_uid : Result Text ℕ
  pub set_timeout : Result Text (Unit {0})
  pub is_sent : Bool
  pub reply : Option Text
  pub timed_out : Bool

-- The whole lines that have left the client, and what the call returns or throws.
pub record Sent {ℓ} (A : Type ℓ) : Type ℓ where
  pub lines : List Text
  pub result : Result Failure A

abbrev fails {ℓ} : {A : Type ℓ} → Failure → Sent A
fails failure = record { lines = []; result = err failure }

unfoldable pub lost_reply : Text → ℕ → Bool → Failure
lost_reply op seconds timed_out =
    unanswered
      ((if timed_out
          then lit "daemon busy: request sent but " ++ no_reply seconds
          else lit "daemon closed the connection without a reply")
        ++ (if is_read_only op then [] else lit "; it may still be applied (check with list/get)"))
      sent timed_out seconds

unfoldable pub unsent : ℕ → Bool → Failure
unsent seconds timed_out =
    unanswered
      (if timed_out
        then lit "daemon busy: " ++ (no_reply seconds ++ lit " (another client may be holding it)")
        else lit "failed to send request to daemon")
      not_sent timed_out seconds

module _ (json : Json) where
  -- std::map's operator[] and the members of a request
  unfoldable pub make_request : Text → Text → Option Text → Map json.Value
  make_request op key value =
      let req = insert (lit "op") (json.string op) [] in
      let keyed = if is_empty key then req else insert (lit "key") (json.string key) req in
      elim value [ none ↦ keyed | some v ↦ insert (lit "value") (json.string v) keyed ]

  unfoldable pub check_size : Text → Result Failure Text
  check_size request_line =
      if ltb max_request_bytes (length request_line)
      then err (
          runtime (
            lit "value too large: the request is "
            ++ (to_string (length request_line)
                ++ (lit " bytes, the daemon's limit is " ++ to_string max_request_bytes))))
      else ok request_line

  unfoldable pub serialize : Text → Map json.Value → Result Failure Text
  serialize token req = elim (dumped json (insert (lit "token") (json.string token) req)) [
    | err what ↦ err (other_failure what)
    | ok request_line ↦ check_size request_line
  ]

  unfoldable pub parse_reply : Text → Result Failure json.Value
  parse_reply line = elim (json.parse line) [
    | none ↦ err (runtime (lit "malformed response from daemon"))
    | some resp ↦ ok resp
  ]

  -- Once the connection is made and the peer is known to be ours.
  unfoldable pub send_line : Text → ℕ → Exchange → Text → Sent json.Value
  send_line op seconds exchange request_line =
      if not exchange.is_sent then fails (unsent seconds exchange.timed_out) else record {
        lines = request_line ∷ [];
        result = elim exchange.reply [
          | none ↦ err (lost_reply op seconds exchange.timed_out)
          | some line ↦ parse_reply line
        ];
      }

  unfoldable pub send_to : ℕ → Text → Text → Map json.Value → ℕ → Text → Exchange → Sent json.Value
  send_to peer_uid socket_path token req my_uid op exchange =
      if not (peer_uid == my_uid)
      then fails (
          runtime (
            lit "socket "
            ++ (socket_path
                ++ (lit " is served by uid "
                    ++ (to_string peer_uid ++ lit ", not ours; refusing to send")))))
      else elim (serialize token req) [
        | err failure ↦ fails failure
        | ok request_line ↦ send_line op (timeout_of op) exchange request_line
      ]

  unfoldable pub send : Text → Text → Text → Map json.Value → ℕ → Exchange → Sent json.Value
  send socket_path token op req my_uid exchange =
      if not exchange.connects
      then fails (
          unanswered (lit "daemon not running at " ++ (socket_path ++ lit " ?")) not_running false
            0)
      else elim exchange.set_timeout [
        | err what ↦ fails (runtime what)
        | ok _ ↦ elim exchange.peer_uid [
          | err what ↦ fails (runtime what)
          | ok peer_uid ↦ send_to peer_uid socket_path token req my_uid op exchange
        ]
      ]

  unfoldable pub error_of : Option json.Value → Failure
  error_of none = runtime (lit "request failed")
  error_of (some error) = elim (json.as_string error) [
    | none ↦ other_failure json.not_a_string
    | some what ↦ runtime what
  ]

  -- resp.value("ok", false)
  unfoldable pub is_ok : Option json.Value → Result Failure Bool
  is_ok none = ok false
  is_ok (some member) = elim (json.as_boolean member) [
    | none ↦ err (other_failure json.not_a_boolean)
    | some b ↦ ok b
  ]

  unfoldable pub accept_reply : json.Value → Result Failure json.Value
  accept_reply resp = elim (json.as_object resp) [
    | none ↦ err (other_failure json.not_an_object)
    | some members ↦ do
      accepted ← is_ok (lookup (lit "ok") members)
      if not accepted then err (error_of (lookup (lit "error") members)) else ok resp
  ]

  unfoldable pub request_raw : Text → Text → Text → Map json.Value → ℕ → Exchange → Sent json.Value
  request_raw socket_path token op req my_uid exchange =
      let reply = send socket_path token op req my_uid exchange in
      record {
        lines = reply.lines;
        result = elim reply.result [ err e ↦ err e | ok resp ↦ accept_reply resp ];
      }

  unfoldable pub request : Text → Text → Text → Text → Option Text → ℕ → Exchange → Sent json.Value
  request socket_path token op key value =
      request_raw socket_path token op (make_request op key value)

  unfoldable pub check_request : Text → Text → Text → Option Text → Result Failure (Unit {0})
  check_request token op key value = elim (serialize token (make_request op key value)) [
    | err failure ↦ err failure
    | ok request_line ↦ ok tt
  ]
