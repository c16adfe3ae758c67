-- ===== src/Server/Rpc/Pool/Tests.antt =====
-- Requests to a service with a guard behind its first handler, and to a service with one handler.
use kuja.Prelude.{
  ◌≡◌, refl, arith, false, none, some, [], ◌∷◌, List, Str, codes, str_eq, has_suffix, if◌then◌else◌,
}
use kuja.Prelude.Dict.{Dict, lookup, insert}
use kuja.Server.Route.{get_service_method, split_service, trim_back, trim_front}
use kuja.Server.Rpc.{Request, Handler, Context, done, next, two}
use kuja.Server.Rpc.Serve.{serve, respond}
use kuja.Server.Rpc.Http.{Service, Server, found, run_service, fill_metadata, put_back, serve_http}
use kuja.Server.Rpc.Nested.{nested_service}
use kuja.Server.Rpc.Reuse.{pass_through}
use kuja.Server.Rpc.Fresh.{new_context}
use kuja.Server.Rpc.Pool.{Pool, Reach, start, later, begins_new}
use kuja.Server.Rpc.Pool.Single.{Reach-nested_service}
use kuja.Server.Rpc.Pool.Bypass.{Reach-bypass}
use kuja.Server.Rpc.Pool.Leak.{header_or, Reach-leak}
use kuja.Server.Tests.{copying, echo, add_request}

-- It lets a request with the right body pass.
abbrev guard : Handler
guard req =
    if str_eq req.body (codes "secret")
    then next (λ e. done e)
    else done (some (record { text = codes "no"; status = none }))

abbrev with_handlers : List Handler → Service Str
with_handlers hs = record {
  id = codes "1";
  name = codes "AddService";
  method = (codes "Add", echo) ∷ [];
  handlers = hs;
}

abbrev server_with : List Handler → Server Str
server_with hs = record {
  service_map = (codes "AddService", with_handlers hs) ∷ [];
  snappy = false;
}

abbrev guarded : Server Str
guarded = server_with (pass_through ∷ guard ∷ [])

abbrev allowed : Request
allowed = record add_request { body = codes "secret" }

Reach-bypass_example :
    (p : Pool Str) × (c : Context Str) × (md : Dict Str) × Reach copying guarded add_request p
    × (p.running ≡ (c, add_request) ∷ [])
    × (serve_http copying guarded c add_request
        ≡ put_back copying (
            some (
              respond copying (
                serve copying echo (
                  found copying guarded c add_request
                    (with_handlers (pass_through ∷ guard ∷ []))
                    echo
                    (codes "AddService")
                    (codes "Add")
                    md)))))
unfolding get_service_method lookup str_eq split_service trim_back trim_front has_suffix
Reach-bypass_example =
    Reach-bypass copying guarded add_request allowed (codes "AddService") (codes "Add")
      (with_handlers (pass_through ∷ guard ∷ [])) echo guard add_request refl refl refl refl
      (λ e. cc) (λ e. cc) ((λ e. cc), tt) ((λ e. cc), tt) refl refl refl refl

abbrev passing : Server Str
passing = server_with (pass_through ∷ [])

abbrev begun : Pool Str
begun = record { idle = []; running = (new_context add_request, add_request) ∷ [] }

Reach-nested_service_example :
    serve_http copying passing (new_context add_request) add_request
    ≡ put_back copying (
        nested_service copying echo (pass_through ∷ []) (
          found copying passing
            (new_context add_request)
            add_request
            (with_handlers (pass_through ∷ []))
            echo
            (codes "AddService")
            (codes "Add")
            ((codes "Token", codes "t") ∷ [])))
unfolding get_service_method fill_metadata lookup insert str_eq split_service trim_back trim_front
    has_suffix new_context
Reach-nested_service_example =
    Reach-nested_service copying passing add_request {p = begun} [] [] (new_context add_request)
      add_request (codes "AddService") (codes "Add") ((codes "Token", codes "t") ∷ [])
      (with_handlers (pass_through ∷ [])) echo (omega arith, tt)
      (later start (begins_new add_request)) refl refl refl (λ e. cc) (λ e. cc) refl refl refl
      ((λ req e. tt), tt)

abbrev open_server : Server Str
open_server = server_with []

abbrev bare_request : Request
bare_request = record add_request { header = [] }

Reach-leak_example :
    (p : Pool Str) × (c : Context Str) × (seen : Dict Str) × Reach copying open_server add_request p
    × (p.running ≡ (c, bare_request) ∷ [])
    × (serve_http copying open_server c bare_request
        ≡ put_back copying (
            run_service copying echo [] (
              found copying open_server c bare_request
                (with_handlers [])
                echo
                (codes "AddService")
                (codes "Add")
                seen)))
    × ((k : Str)
        → lookup k seen ≡ header_or k bare_request.header (header_or k add_request.header none))
unfolding get_service_method lookup str_eq split_service trim_back trim_front has_suffix
Reach-leak_example =
    Reach-leak copying open_server add_request add_request bare_request (codes "AddService")
      (codes "Add") (codes "AddReq") (codes "AddService") (codes "Add") (λ v. two v none)
      (with_handlers []) (with_handlers []) echo refl refl (λ e. cc) (λ e. cc) ((λ e. cc), tt) refl
      refl refl refl refl (λ e. cc) (λ e. cc) tt refl refl
