-- ===== src/Tests/Requests.antt =====
-- The client's requests, to nobody and to a daemon with one secret.
use secretov.Prelude.{◌≡◌, ◌⊎◌, refl, none, some, true, false, [], ◌∷◌, if◌then◌else◌}
use secretov.Prelude.Text.{Text, lit, text_eq, text_lt, is_empty, rfind_byte}
use secretov.Prelude.Map.{lookup, insert}
use secretov.Prelude.Result.{ok, err}
use secretov.Backend.{runtime}
use secretov.Client.Requests.{Exchange, make_request, check_size, serialize, request}
use secretov.Client.Requests.Guarded.{IsGuarded, request-IsGuarded}
use secretov.Client.Requests.Served.{Reads, handled, called, get-called, set-called}
use secretov.Daemon.{token_matches, got, dispatch, guarded, answer, handle_line, respond}
use secretov.Protocol.{parse_request, dumped, ok_value, ok_response}
use secretov.Files.{write_file_atomic}
use secretov.Header.{file_bytes, magic}
use secretov.Keys.{persist, random}
use secretov.Store.{get, set}
use secretov.Tests.Json.{framed, small_json-laws}
use secretov.Tests.Platform.{small}
use secretov.Tests.Stores.{held, world, held-IsStored}

abbrev socket : Text
socket = lit "/run/s"

abbrev token : Text
token = lit "t0"

abbrev key : Text
key = lit "dev/api/KEY"

abbrev getting : Text
getting =
    framed (lit "key")
      (framed key (framed (lit "op") (framed (lit "get") (framed (lit "token") (framed token [])))))

abbrev setting : Text
setting = framed (lit "key") (
    framed key (
      framed (lit "op") (
        framed (lit "set")
          (framed (lit "token") (framed token (framed (lit "value") (framed (lit "new") [])))))))

getting_prints :
    serialize small.json token (make_request small.json (lit "get") key none) ≡ ok getting
unfolding serialize check_size dumped make_request insert lit text_eq text_lt is_empty
getting_prints = refl

setting_prints :
    serialize small.json token (make_request small.json (lit "set") key (some (lit "new")))
    ≡ ok setting
unfolding serialize check_size dumped make_request insert lit text_eq text_lt is_empty
setting_prints = refl

abbrev found : Text
found = framed (lit "ok") (framed (300 ∷ []) (framed (lit "value") (framed (lit "s3cret") [])))

abbrev acknowledged : Text
acknowledged = framed (lit "ok") (framed (300 ∷ []) [])

found_replied : (handled small token 9 held world getting).result ≡ ok found
unfolding handled handle_line parse_request answer token_matches guarded dispatch got get ok_value
    dumped insert lookup lit text_eq text_lt is_empty
found_replied = refl

acknowledged_printed : ok_response small.json ≡ ok acknowledged
unfolding ok_response dumped lit
acknowledged_printed = refl

acknowledged_replied : (handled small token 9 held world setting).result ≡ ok acknowledged
unfolding handled handle_line parse_request answer token_matches guarded dispatch respond set
    ok_response dumped insert lookup lit text_eq text_lt is_empty persist random write_file_atomic
    rfind_byte file_bytes magic
acknowledged_replied = refl

get-called_example :
    Reads small.json
      (get small held key)
      (called small token 9 held world socket 5 (lit "get") key none getting)
    ⊎ (called small token 9 held world socket 5 (lit "get") key none getting
        ≡ err (runtime small.json.invalid_utf8))
unfolding lit is_empty
get-called_example =
    get-called small token 9 held world small_json-laws socket 5 key getting found getting_prints
      refl found_replied

set-called_example :
    ((resp : small.json.Value) × (called small token 9 held world socket 5
          (lit "set")
          key
          (some (lit "new"))
          setting
        ≡ ok resp)
      × ((j : Text)
          → get small (handled small token 9 held world setting).store j
            ≡ (if text_eq key j then ok (some (lit "new")) else get small held j)))
    ⊎ ((what : Text) × (called small token 9 held world socket 5
            (lit "set")
            key
            (some (lit "new"))
            setting
          ≡ err (runtime what))
        × ((j : Text)
            → get small (handled small token 9 held world setting).store j ≡ get small held j))
unfolding lit is_empty
set-called_example =
    set-called small token 9 held world small_json-laws socket 5 key setting (lit "new")
      acknowledged acknowledged setting_prints refl acknowledged_replied acknowledged_printed
      held-IsStored

abbrev nobody : Exchange
nobody = record {
  connects = true;
  peer_uid = ok 6;
  set_timeout = ok tt;
  is_sent = true;
  reply = none;
  timed_out = false;
}

request-IsGuarded_example :
    IsGuarded small.json token
      (make_request small.json (lit "get") key none)
      5
      nobody
      (request small.json socket token (lit "get") key none 5 nobody)
request-IsGuarded_example = request-IsGuarded small.json socket token (lit "get") key none 5 nobody
