-- ===== src/Server/Tests.antt =====
-- Runs of the server's model, with encoders that copy.
use kuja.Prelude.{
  ℕ, ◌≡◌, ◌≢◌, refl, none, some, [], ◌∷◌, arith, replicate, Str, codes, str_eq, false, ap, length,
}
use kuja.Prelude.Dict.{lookup, insert}
use kuja.Prelude.{has_suffix}
use kuja.Server.Route.{get_service_method, split_service, trim_back, trim_front}
use kuja.Server.Route.Laws.{route_path}
use kuja.Server.Rpc.{Request, value, Encoder, Externals, View, two, Method, plain, Context}
use kuja.Server.Rpc.Nested.{nested_service}
use kuja.Server.Rpc.Fresh.{new_context, serve_http-new_context}
use kuja.Server.Rpc.Http.{Service, put_back, found, Server, stuck, fill_metadata, serve_http}
use kuja.Server.Rpc.Reuse.{pass_through, serve_http-ne-stuck}

abbrev pub copy : Encoder Str
copy = record { decode = λ t bytes. value bytes; marshal = λ v. value v; encode = λ v. v ∷ [] }

abbrev pub copying : Externals
copying = record {
  Value = Str;
  json = copy;
  proto = copy;
  gogoproto = copy;
  msgp = copy;
  snappy_encode = λ s. s;
  internal_error = λ s. record { text = s; status = some 500 };
  error_json = λ e. e.text ∷ [];
}

abbrev pub add_request : Request
add_request = record {
  method = codes "POST";
  path = route_path (codes "AddService") (codes "Add");
  header = (codes "Token", codes "t" ∷ []) ∷ [];
  content_type = codes "application/json";
  body = codes "{}";
}

abbrev pub echo : Method Str
echo = plain (codes "AddReq") (λ v. two v none)

abbrev pub no_view : View
no_view = record {
  req_metadata = (codes "User", codes "u") ∷ [];
  resp_metadata = [];
  service_id = [];
  service_name = [];
  method_name = [];
}

abbrev pub context_at : ℕ → Context Str
context_at i = record {
  view = no_view;
  index = i;
  handlers = replicate 3 pass_through;
  mt = some echo;
  req = add_request;
  snappy = false;
  is_resp = false;
  out = [];
  reports = [];
}

abbrev pub add_registered : Service Str
add_registered = record {
  id = codes "1";
  name = codes "AddService";
  method = (codes "Add", echo) ∷ [];
  handlers = replicate 3 pass_through;
}

abbrev pub add_server : Server Str
add_server = record { service_map = (codes "AddService", add_registered) ∷ []; snappy = false }

serve_http-ne-stuck_example : serve_http copying add_server (context_at 0) add_request ≢ stuck
serve_http-ne-stuck_example = serve_http-ne-stuck copying add_server (context_at 0) add_request

serve_http-new_context_example :
    serve_http copying add_server (new_context add_request) add_request
    ≡ put_back copying (
        nested_service copying echo (replicate 3 pass_through) (
          found copying add_server
            (new_context add_request)
            add_request
            add_registered
            echo
            (codes "AddService")
            (codes "Add")
            ((codes "Token", codes "t") ∷ [])))
unfolding get_service_method fill_metadata lookup insert str_eq split_service trim_back trim_front
    has_suffix
serve_http-new_context_example =
    serve_http-new_context copying add_server add_request add_request (codes "AddService")
      (codes "Add") ((codes "Token", codes "t") ∷ []) add_registered echo refl refl (λ e. cc)
      (λ e. cc) refl refl refl ((λ req e. tt), ((λ req e. tt), ((λ req e. tt), tt)))

token-ne-user : codes "Token" ≢ codes "User"
token-ne-user e = omega (arith, ap {B = ℕ} length e)

two_keys :
    fill_metadata add_request.header no_view.req_metadata
    ≡ some ((codes "User", codes "u") ∷ (codes "Token", codes "t") ∷ [])
unfolding fill_metadata insert str_eq
two_keys = refl
