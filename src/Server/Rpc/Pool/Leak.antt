-- ===== src/Server/Rpc/Pool/Leak.antt =====
-- A request on the context of an earlier one sees headers of the earlier one.
use kuja.Prelude.{
  ◌≡◌, ◌≢◌, refl, sym, ap, List, if◌then◌else◌, str_eq, ◌∙◌, arith, false, Option, none, some, [],
  ◌∷◌, Str, codes,
}
use kuja.Prelude.Dict.{Dict, lookup, insert, lookup-insert}
use kuja.Server.Route.{get_service_method}
use kuja.Server.Rpc.{
  GoError, Externals, Request, Returned, fails, value, Reply, one, two, Method, plain, Context,
}
use kuja.Server.Rpc.Serve.{
  emit, metadata_calls, finish, answer, run_method, serve_decoded, encoder_for, serve, respond,
  resp_error,
}
use kuja.Server.Rpc.Http.{
  Service, Server, answered, found, run_service, first_value, fill_metadata, put_back, serve_http,
}
use kuja.Server.Rpc.Fresh.{new_context, serve_http-found}
use kuja.Server.Rpc.Pool.{Pool, put, begins_new, begins, ends, Reach, start, later}
use kuja.Server.Rpc.Pool.Bypass.{HasValues, fill_metadata-some}

-- The first value of the last header of a name; `found` where there is none.
abbrev pub header_or : Str → Dict (List Str) → Option Str → Option Str
header_or k [] found = found
header_or k ((name, vals) ∷ header) found =
    header_or k header (if str_eq name k then first_value vals else found)

lookup-fill_metadata :
    (header : Dict (List Str)) (md md' : Dict Str) (k : Str)
    → fill_metadata header md ≡ some md'
    → lookup k md' ≡ header_or k header (lookup k md)
unfolding fill_metadata
lookup-fill_metadata [] md md' k e = let same : md ≡ md' = cc in ap (lookup k) (sym same)
lookup-fill_metadata ((name, []) ∷ header) md md' k e = absurd cc
lookup-fill_metadata ((name, v ∷ vs) ∷ header) md md' k e =
    lookup-fill_metadata header (insert name v md) md' k e
    ∙ ap (header_or k header) (lookup-insert name k v md)

module _ (x : Externals) where
  open x use {Value}

  finish-view : (v : Option Value) (c : Context Value) → (finish x v c).1.view ≡ c.view
  unfolding finish
  finish-view none c = refl
  finish-view (some v) c = ground arith

  answer-view : (r : Reply Value) (c : Context Value) → (answer x r c).1.view ≡ c.view
  unfolding answer
  answer-view (one (some e)) c = refl
  answer-view (two v (some e)) c = refl
  answer-view (one none) c = finish-view none (emit x (metadata_calls x c.view.resp_metadata) c)
  answer-view (two v none) c =
      finish-view (some v) (emit x (metadata_calls x c.view.resp_metadata) c)

  serve_decoded-view :
      (t : Str) (f : Value → Reply Value) (r : Returned Value) (c : Context Value)
      → (serve_decoded x (plain t f) r c).1.view ≡ c.view
  unfolding serve_decoded run_method
  serve_decoded-view t f (fails e) c = refl
  serve_decoded-view t f (value v) c = answer-view (f v) c

  respond-view : (a : Option GoError × Context Value) → (respond x a).view ≡ a.1.view
  unfolding respond resp_error
  respond-view (none, c) = refl
  respond-view (some e, c) = ground arith

  -- A method without a context argument leaves the exported fields alone.
  serve-view :
      (t : Str) (f : Value → Reply Value) (c : Context Value)
      → (respond x (serve x (plain t f) c)).view ≡ c.view
  unfolding serve
  serve-view t f c =
      respond-view (serve x (plain t f) c)
      ∙ serve_decoded-view t f ((encoder_for x c.req.content_type).decode t c.req.body)
          (record c { is_resp = false })

  -- After one request to a method without a context argument, of a service without handlers, there is
  -- a context on which any other request, one for a method whose headers have values, can begin and
  -- is served with these request metadata: under the name of each header, the value of its own header,
  -- or where it has none the value of the first request's.
  pub Reach-leak :
      (server : Server Value) (nil first other : Request) (sn mn t sn' mn' : Str)
      (f : Value → Reply Value) (s s' : Service Value) (mt' : Method Value)
      → first.method ≡ codes "POST"
      → get_service_method first.path ≡ (sn, mn)
      → sn ≢ []
      → mn ≢ []
      → HasValues x first.header
      → lookup sn server.service_map ≡ some s
      → lookup mn s.method ≡ some (plain t f)
      → s.handlers ≡ []
      → other.method ≡ codes "POST"
      → get_service_method other.path ≡ (sn', mn')
      → sn' ≢ []
      → mn' ≢ []
      → HasValues x other.header
      → lookup sn' server.service_map ≡ some s'
      → lookup mn' s'.method ≡ some mt'
      → (p : Pool Value) × (c : Context Value) × (seen : Dict Str) × Reach x server nil p
        × (p.running ≡ (c, other) ∷ [])
        × (serve_http x server c other
            ≡ put_back x
                (run_service x mt' s'.handlers (found x server c other s' mt' sn' mn' seen)))
        × ((k : Str) → lookup k seen ≡ header_or k other.header (header_or k first.header none))
  unfolding new_context run_service lookup
  Reach-leak server nil first other sn mn t sn' mn' f s s' mt' post path some_sn some_mn values
        known offers bare post' path' some_sn' some_mn' values' known' offers' =
      let (md, filled) = fill_metadata-some x first.header [] values in
      let ctx : Context Value = found x server (new_context nil) first s (plain t f) sn mn md in
      let c : Context Value = respond x (serve x (plain t f) ctx) in
      let view : c.view.req_metadata ≡ md = ap (λ w. w.req_metadata) (serve-view t f ctx) in
      let served : serve_http x server (new_context nil) first ≡ answered c.out (some c) =
        serve_http-found x server (new_context nil) first sn mn md s (plain t f) post path some_sn
          some_mn filled known offers
        ∙ ap (λ hs. put_back x (run_service x (plain t f) hs ctx)) bare in
      let (seen, read) = fill_metadata-some x other.header c.view.req_metadata values' in
      (
        record { idle = []; running = (c, other) ∷ [] },
        c,
        seen,
        later (later (later start (begins_new first)) (ends [] [] (new_context nil) first refl))
            (begins [] [] c other (ap (λ ex. put ex []) served)),
        refl,
        serve_http-found x server c other sn' mn' seen s' mt' post' path' some_sn' some_mn' read
            known' offers',
        λ k.
            lookup-fill_metadata other.header c.view.req_metadata seen k read
            ∙ ap (λ d. header_or k other.header (lookup k d)) view
            ∙ ap (header_or k other.header) (lookup-fill_metadata first.header [] md k filled),
      )
