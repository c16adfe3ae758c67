-- ===== src/Server/Rpc/Http.antt =====
-- server.go: `Server.ServeHTTP`, with the context that the pool hands out as an argument.
use kuja.Prelude.{suc, if◌then◌else◌, Bool, false, not, ◌&&◌, ◌||◌}
use kuja.Prelude.{Option, none, some, List, [], ◌∷◌, ◌++◌, length, Str, codes, str_eq}
use kuja.Prelude.Dict.{Dict, lookup, insert}
use kuja.Server.Route.{get_service_method}
use kuja.Server.Rpc.{
  Call, set_header, write_header, write, Request, Externals, Method, Handler, Context,
}
use kuja.Server.Rpc.Serve.{serve, respond, run_action, next_loop, respond_run}

-- A registered service.
pub record Service (Value : Type 0) : Type 0 where
  pub id : Str
  pub name : Str
  pub method : Dict (Method Value)
  pub handlers : List Handler

pub record Server (Value : Type 0) : Type 0 where
  pub service_map : Dict (Service Value)
  pub snappy : Bool

-- The answer to a request: the calls on the writer, and the context that is put back, if any.
-- `panics` is an index out of range; `stuck` is no Go value, the bound on `Next` was met.
pub data Exchange (Value : Type 0) : Type 0 where
  answered : List Call → Option (Context Value) → Exchange Value
  panics : Exchange Value
  stuck : Exchange Value

abbrev pub plain_text : Call
plain_text = set_header (codes "Content-Type") (codes "text/plain; charset=utf-8")

abbrev pub health_calls : List Call
health_calls = plain_text ∷ write_header 200 ∷ write (codes "ok" ++ (10 ∷ [])) ∷ []

abbrev pub must_post_calls : List Call
must_post_calls = plain_text ∷ write_header 405 ∷ write (codes "405 must POST" ++ (10 ∷ [])) ∷ []

abbrev pub not_found_calls : Str → List Call
not_found_calls text = write_header 404 ∷ write text ∷ []

abbrev pub first_value : List Str → Option Str
first_value [] = none
first_value (v ∷ vs) = some v

-- `for name, vals := range req.Header { ctx.ReqMetadata[name] = vals[0] }`
unfoldable pub fill_metadata : Dict (List Str) → Dict Str → Option (Dict Str)
fill_metadata [] md = some md
fill_metadata ((name, vals) ∷ header) md = elim (first_value vals) [
  | none ↦ none
  | some v ↦ fill_metadata header (insert name v md)
]

module _ (x : Externals) where
  open x use {Value}

  abbrev pub found :
      Server Value
      → Context Value
      → Request
      → Service Value
      → Method Value
      → Str
      → Str
      → Dict Str
      → Context Value
  found server got req s mt service_name method_name md = record got {
    view = record {
      req_metadata = md;
      resp_metadata = got.view.resp_metadata;
      service_id = s.id;
      service_name = service_name;
      method_name = method_name;
    };
    handlers = s.handlers;
    mt = some mt;
    req = req;
    snappy = server.snappy;
    is_resp = false;
    out = [];
    reports = [];
  }

  -- From `if len(s.handlers) > 0` on. The index is the one that the pool's context came with.
  unfoldable pub run_service : Method Value → List Handler → Context Value → Option (Context Value)
  run_service mt [] c = some (respond x (serve x mt c))
  run_service mt (h ∷ hs) c =
      respond_run x (run_action x (next_loop x (suc (length hs)) mt) (h c.req) c)

  abbrev pub put_back : Option (Context Value) → Exchange Value
  put_back none = stuck
  put_back (some c) = answered c.out (some c)

  -- The lookup of the method; the context that was taken is dropped where there is none.
  abbrev pub serve_method :
      Server Value
      → Context Value
      → Request
      → Str
      → Str
      → Dict Str
      → Service Value
      → Option (Method Value)
      → Exchange Value
  serve_method server got req sn mn md s none =
      answered (not_found_calls (codes "rpc: can't find method " ++ mn)) none
  serve_method server got req sn mn md s (some mt) =
      put_back (run_service mt s.handlers (found server got req s mt sn mn md))

  abbrev pub serve_service :
      Server Value
      → Context Value
      → Request
      → Str
      → Str
      → Dict Str
      → Option (Service Value)
      → Exchange Value
  serve_service server got req sn mn md none =
      answered (not_found_calls (codes "rpc: can't find service " ++ sn)) none
  serve_service server got req sn mn md (some s) =
      serve_method server got req sn mn md s (lookup mn s.method)

  abbrev pub serve_filled :
      Server Value → Context Value → Request → Str → Str → Option (Dict Str) → Exchange Value
  serve_filled server got req sn mn none = panics
  serve_filled server got req sn mn (some md) =
      serve_service server got req sn mn md (lookup sn server.service_map)

  -- From `server.pool.Get` on.
  unfoldable pub serve_route : Server Value → Context Value → Request → Str → Str → Exchange Value
  serve_route server got req sn mn =
      serve_filled server got req sn mn (fill_metadata req.header got.view.req_metadata)

  unfoldable pub serve_post : Server Value → Context Value → Request → Str × Str → Exchange Value
  serve_post server got req (sn, mn) =
      if str_eq sn [] || str_eq mn []
      then answered (not_found_calls (codes "rpc: can't find service or method")) none
      else serve_route server got req sn mn

  unfoldable pub serve_http : Server Value → Context Value → Request → Exchange Value
  serve_http server got req =
      if str_eq req.method (codes "GET") && str_eq req.path (codes "/health")
      then answered health_calls none
      else if not (str_eq req.method (codes "POST"))
      then answered must_post_calls none
      else serve_post server got req (get_service_method req.path)
