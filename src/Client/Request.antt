-- ===== src/Client/Request.antt =====
-- client/client.go: `Request`. A call through hystrix and net/http has one of the outcomes of
-- `HttpOutcome`; the select of the source takes it from the channel that has it.
use kuja.Prelude.{
  ℕ, ◌==◌, Bool, true, false, if◌then◌else◌, Option, none, some, List, [], ◌∷◌, Str, codes, str_eq,
}
use kuja.Prelude.Dict.{Dict, insert}
use kuja.Server.Rpc.{GoError, Returned, fails, value}
use kuja.Client.Address.{Addressed, address, failed, panics}

-- An encoder, as a client uses it.
pub record ClientEncoder (Value : Type 0) : Type 0 where
  pub content_type : Str
  pub marshal : Value → Returned Str
  pub unmarshal : Str → Returned Value

-- `error_value` is what the JSON encoder makes of bytes that are to be an errors.Error.
pub record ClientExternals : Type 1 where
  pub Value : Type 0
  pub snappy_decode : Str → Returned Str
  pub error_value : Str → GoError
  pub new_error : Str → GoError
  -- The error of http.NewRequest, if any.
  pub bad_request : Str → Option GoError
  pub canonical : Str → Str

-- The parts of a http.Response that are read: `content_type` and `snappy` are the values of `Get`.
pub record HttpResponse : Type 0 where
  pub status : ℕ
  pub content_type : Str
  pub snappy : Str
  pub body : Str

pub data HttpOutcome : Type 0 where
  responds : HttpResponse → HttpOutcome
  errs : GoError → HttpOutcome

-- A request as it is sent.
pub record Sent : Type 0 where
  pub url : Str
  pub header : Dict Str
  pub body : Str

-- What `Request` returns, and the value that it decodes into `respv`; `crashes` is a panic.
pub data Answered (Value : Type 0) : Type 0 where
  returns : ℕ → Option GoError → Option Value → Answered Value
  crashes : Answered Value

module _ (x : ClientExternals) where
  open x use {Value, snappy_decode, error_value, new_error, bad_request, canonical}

  -- `for name, val := range … { req.Header.Set(name, val) }`
  unfoldable pub set_headers : Dict Str → Dict Str → Dict Str
  set_headers [] h = h
  set_headers ((name, val) ∷ rest) h = set_headers rest (insert (canonical name) val h)

  abbrev pub decoded : ℕ → Returned Value → Answered Value
  decoded status (fails e) = returns 0 (some e) none
  decoded status (value v) = returns status none (some v)

  abbrev pub unpack : Bool → Str → Returned Str
  unpack true body = snappy_decode body
  unpack false body = value body

  abbrev pub decode_with : ClientEncoder Value → ℕ → Returned Str → Answered Value
  decode_with enc status (fails e) = returns 0 (some e) none
  decode_with enc status (value bytes) = decoded status (enc.unmarshal bytes)

  -- From `respData := buf.Bytes()` on.
  unfoldable pub read_body : ClientEncoder Value → HttpResponse → Answered Value
  read_body enc resp = elim resp.body [
    | [] ↦ returns resp.status none none
    | b ∷ bytes ↦
        decode_with enc resp.status (unpack (str_eq resp.snappy (codes "true")) (b ∷ bytes))
  ]

  -- The JSON encoder of the client is nil where `NewWithRegistry` made it.
  abbrev pub json_error : Bool → HttpResponse → Answered Value
  json_error true resp = returns resp.status (some (error_value resp.body)) none
  json_error false resp = crashes

  -- The switch on the content type of a status that is not 200 falls through to the body.
  unfoldable pub read_response : Bool → ClientEncoder Value → HttpResponse → Answered Value
  unfolding read_body
  read_response has_json enc resp =
      if resp.status == 200
      then read_body enc resp
      else if str_eq resp.content_type (codes "application/json; charset=utf-8")
      then json_error has_json resp
      else if str_eq resp.content_type (codes "text/plain; charset=utf-8")
      then returns resp.status (some (new_error resp.body)) none
      else read_body enc resp

  -- The select; `wanted` says that `respv` is not nil.
  unfoldable pub receive : Bool → Bool → ClientEncoder Value → HttpOutcome → Answered Value
  unfolding read_response
  receive has_json wanted enc (errs e) = returns 0 (some e) none
  receive has_json false enc (responds resp) = returns resp.status none none
  receive has_json true enc (responds resp) = read_response has_json enc resp

  abbrev pub is_configured : Str → List Str → Bool
  is_configured s [] = false
  is_configured s (t ∷ ts) = let rest = is_configured s ts in if str_eq s t then true else rest

  -- `c.hystrixConfig[service] = struct{}{}` where it is not there
  abbrev pub configure : Str → List Str → List Str
  configure service configured =
      if is_configured service configured then configured else service ∷ configured

  -- A run of `Request`: the services that are configured, what was sent, and the answer.
  pub record RequestRun : Type 0 where
    pub configured : List Str
    pub sent : Option Sent
    pub answer : Answered Value

  abbrev pub stops : List Str → Answered Value → RequestRun
  stops configured a = record { configured = configured; sent = none; answer = a }

  abbrev pub request_headers : ClientEncoder Value → Dict Str → Dict Str → Dict Str
  request_headers enc defaults header =
      set_headers header
        (set_headers defaults (insert (canonical (codes "Content-Type")) enc.content_type []))

  module _ (enc : ClientEncoder Value) (defaults : Dict Str) (configured : List Str)
      (has_json : Bool) (wanted : Bool) where
    abbrev pub send : (Sent → HttpOutcome) → Str → Dict Str → Str → Str → RequestRun
    send do_request service header url body =
        let sent : Sent = record {
          url = url;
          header = request_headers enc defaults header;
          body = body;
        } in
        record {
          configured = configure service configured;
          sent = some sent;
          answer = receive has_json wanted enc (do_request sent);
        }

    abbrev pub with_request :
        (Sent → HttpOutcome) → Str → Dict Str → Str → Str → Option GoError → RequestRun
    with_request do_request service header url body (some e) =
        stops configured (returns 0 (some e) none)
    with_request do_request service header url body none = send do_request service header url body

    abbrev pub with_body : (Sent → HttpOutcome) → Str → Dict Str → Str → Returned Str → RequestRun
    with_body do_request service header url (fails e) = stops configured (returns 0 (some e) none)
    with_body do_request service header url (value body) =
        with_request do_request service header url body (bad_request url)

    -- `Request`; `found` is what `GetAddress` gives.
    unfoldable pub request : (Sent → HttpOutcome) → Addressed → Str → Dict Str → Value → RequestRun
    unfolding receive set_headers
    request do_request panics service header v = stops configured crashes
    request do_request (failed e) service header v =
        stops configured (returns 0 (some (new_error e)) none)
    request do_request (address url) service header v =
        with_body do_request service header url (enc.marshal v)
