-- ===== src/Client/Call/Tests.antt =====
-- A call of a method that replies with its argument.
use kuja.Prelude.{◌≡◌, refl, true, false, none, some, [], ◌∷◌, Str, codes, str_eq, has_suffix}
use kuja.Prelude.Dict.{lookup, insert}
use kuja.Server.Route.{get_service_method, split_service, trim_back, trim_front}
use kuja.Server.Rpc.{Request, value, two}
use kuja.Server.Rpc.Serve.{encoder_for}
use kuja.Server.Rpc.Http.{Service, Server, fill_metadata}
use kuja.Server.Tests.{echo, add_request}
use kuja.Client.Address.{address}
use kuja.Client.Request.{Sent, returns, request}
use kuja.Client.Tests.{copy_wire, with_lines, line_encoder, json_error_of, plain_error}
use kuja.Client.Call.{caller, through, request-serve_http}

abbrev echo_service : Service Str
echo_service = record {
  id = codes "1";
  name = codes "AddService";
  method = (codes "Add", echo) ∷ [];
  handlers = [];
}

abbrev echo_server : Server Str
echo_server = record { service_map = (codes "AddService", echo_service) ∷ []; snappy = false }

abbrev carried : Sent → Request
carried sent = record add_request { body = sent.body }

abbrev add_url : Str
add_url = codes "http://a/AddService/Add"

request-serve_http_example :
    (request
      (caller with_lines copy_wire (λ s. value s) json_error_of plain_error (λ s. none))
      line_encoder
      []
      []
      true
      true
      (through with_lines copy_wire
        (λ s. value s)
        json_error_of
        plain_error
        (λ s. none)
        echo_server
        add_request
        carried)
      (address add_url)
      (codes "AddService")
      []
      (codes "{}")).answer
    ≡ returns 200 none (some (codes "{}"))
unfolding get_service_method fill_metadata lookup insert str_eq split_service trim_back trim_front
    has_suffix encoder_for
request-serve_http_example =
    request-serve_http with_lines copy_wire (λ s. value s) json_error_of plain_error (λ s. none)
      echo_server add_request carried line_encoder [] [] ((codes "Token", codes "t") ∷ []) []
      add_url (codes "AddService") (codes "Add") (codes "AddReq") (codes "{}") (λ v. two v none)
      echo_service (codes "{}") (codes "{}") refl refl refl refl (λ e. cc) (λ e. cc) refl refl refl
      refl refl ((λ e. cc), refl)
