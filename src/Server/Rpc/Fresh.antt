-- ===== src/Server/Rpc/Fresh.antt =====
-- server.go: the context that the pool of `NewServer` makes, and a request on such a context.
use kuja.Prelude.{◌≡◌, ◌≢◌, refl, ap, ◌∙◌, none, some, [], ◌∷◌, All, Str, codes, str_eq, false}
use kuja.Prelude.Dict.{Dict, lookup}
use kuja.Server.Route.{get_service_method}
use kuja.Server.Rpc.{Externals, Request, Method, Context}
use kuja.Server.Rpc.Http.{
  Service, Server, found, run_service, fill_metadata, put_back, serve_filled, serve_service,
  serve_method, serve_route, serve_post, serve_http,
}
use kuja.Server.Rpc.Nested.{OnceHandler, nested_service, run_service-nested_service}

-- `pool.New`; the request is nil there, and is set before it is read.
unfoldable pub new_context : {Value : Type 0} → Request → Context Value
new_context req = record {
  view = record {
    req_metadata = [];
    resp_metadata = [];
    service_id = [];
    service_name = [];
    method_name = [];
  };
  index = 0;
  handlers = [];
  mt = none;
  req = req;
  snappy = false;
  is_resp = false;
  out = [];
  reports = [];
}

str_eq-nil : (s : Str) → s ≢ [] → str_eq s [] ≡ false
unfolding str_eq
str_eq-nil [] ne = absurd (ne refl)
str_eq-nil (c ∷ s) ne = refl

module _ (x : Externals) where
  open x use {Value}

  module _ (server : Server Value) (got : Context Value) (req : Request) where
    pub serve_http-post :
        req.method ≡ codes "POST"
        → serve_http x server got req ≡ serve_post x server got req (get_service_method req.path)
    unfolding serve_http str_eq
    serve_http-post e = rw (e, serve_http) refl

    serve_post-named :
        (sn mn : Str)
        → sn ≢ []
        → mn ≢ []
        → serve_post x server got req (sn, mn) ≡ serve_route x server got req sn mn
    unfolding serve_post
    serve_post-named sn mn some_sn some_mn = rw (str_eq-nil sn some_sn, str_eq-nil mn some_mn) refl

    -- A POST request comes to the method that its path names.
    pub serve_http-found :
        (sn mn : Str) (md : Dict Str) (s : Service Value) (mt : Method Value)
        → req.method ≡ codes "POST"
        → get_service_method req.path ≡ (sn, mn)
        → sn ≢ []
        → mn ≢ []
        → fill_metadata req.header got.view.req_metadata ≡ some md
        → lookup sn server.service_map ≡ some s
        → lookup mn s.method ≡ some mt
        → serve_http x server got req
          ≡ put_back x (run_service x mt s.handlers (found x server got req s mt sn mn md))
    unfolding serve_route
    serve_http-found sn mn md s mt post path some_sn some_mn filled known has =
        serve_http-post post
        ∙ ap (serve_post x server got req) path
        ∙ serve_post-named sn mn some_sn some_mn
        ∙ ap (serve_filled x server got req sn mn) filled
        ∙ ap (serve_service x server got req sn mn md) known
        ∙ ap (serve_method x server got req sn mn md s) has

  -- A POST request for a method of a registered service, on a context that the pool makes, runs the
  -- service's handlers one inside the other and the method innermost, where each handler calls Next
  -- once at most and each header of the request has a value.
  pub serve_http-new_context :
      (server : Server Value) (nil req : Request) (sn mn : Str) (md : Dict Str) (s : Service Value)
      (mt : Method Value)
      → req.method ≡ codes "POST"
      → get_service_method req.path ≡ (sn, mn)
      → sn ≢ []
      → mn ≢ []
      → fill_metadata req.header [] ≡ some md
      → lookup sn server.service_map ≡ some s
      → lookup mn s.method ≡ some mt
      → All OnceHandler s.handlers
      → serve_http x server (new_context nil) req
        ≡ put_back x
            (nested_service x mt s.handlers (found x server (new_context nil) req s mt sn mn md))
  unfolding new_context
  serve_http-new_context server nil req sn mn md s mt post path some_sn some_mn filled known has
        once =
      let got : Context Value = new_context nil in
      serve_http-found server got req sn mn md s mt post path some_sn some_mn filled known has
      ∙ ap (put_back x) (
          run_service-nested_service x mt s.handlers (found x server got req s mt sn mn md) refl
            refl once)
