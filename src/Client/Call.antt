-- ===== src/Client/Call.antt =====
-- A call from `Request` of client/client.go to a method behind `ServeHTTP` of server.go and back.
mod Tests
use kuja.Prelude.{
  ◌≡◌, ◌≢◌, refl, sym, ap, ◌∙◌, Bool, true, false, Bool-cases, inl, inr, Option, none, some, List,
  [], ◌∷◌, ◌++◌, map, Str, codes,
}
use kuja.Prelude.Dict.{Dict, lookup}
use kuja.Server.Route.{get_service_method}
use kuja.Server.Rpc.{
  GoError, Call, write_header, write, Request, Returned, fails, value, Externals, Reply, one, two,
  Method, plain, Context,
}
use kuja.Server.Rpc.Serve.{
  encoder_for, reply_calls, finish, answer, run_method, serve_decoded, serve, respond, resp_error,
}
use kuja.Server.Rpc.Http.{
  Service, Server, Exchange, answered, panics, stuck, found, fill_metadata, run_service, put_back,
  serve_http,
}
use kuja.Server.Rpc.Fresh.{new_context, serve_http-found}
use kuja.Client.Address.{address}
use kuja.Client.Request.{
  ClientEncoder, ClientExternals, Sent, HttpOutcome, responds, Answered, returns, HttpResponse,
  read_body, receive, read_response, request, request_headers, with_body, with_request,
}
use kuja.Client.Wire.{joined, last_value, sets, Wire, IsPlain, ok-HasBody, type-IsPlain}
use mathlib.Core.Path.{subst}
use kuja.Client.Errors.{error_seen, GetsThrough, read_response-resp_error}
use kuja.Client.Pair.{client_side, Readable, read_response-answer}

-- The calls on the writer of an exchange.
abbrev pub calls_of : {Value : Type 0} → Exchange Value → List Call
calls_of (answered cs c) = cs
calls_of panics = []
calls_of stuck = []

module _ (x : Externals) where
  open x use {Value}

  respond-none : (a : Option GoError × Context Value) → a.0 ≡ none → respond x a ≡ a.1
  unfolding respond
  respond-none (none, c) e = refl
  respond-none (some err, c) e = absurd cc

  serve-plain :
      (t : Str) (f : Value → Reply Value) (d : Value) (c : Context Value)
      → (encoder_for x c.req.content_type).decode t c.req.body ≡ value d
      → serve x (plain t f) c ≡ answer x (f d) (record c { is_resp = false })
  unfolding serve serve_decoded run_method
  serve-plain t f d c e = ap (λ r. serve_decoded x (plain t f) r (record c { is_resp = false })) e

  -- What a method without a context argument, of a service without handlers, leads to.
  serve_http-plain :
      (server : Server Value) (nil req : Request) (sn mn t : Str) (f : Value → Reply Value)
      (md : Dict Str) (s : Service Value) (d : Value)
      → req.method ≡ codes "POST"
      → get_service_method req.path ≡ (sn, mn)
      → sn ≢ []
      → mn ≢ []
      → fill_metadata req.header [] ≡ some md
      → lookup sn server.service_map ≡ some s
      → lookup mn s.method ≡ some (plain t f)
      → s.handlers ≡ []
      → (encoder_for x req.content_type).decode t req.body ≡ value d
      → calls_of (serve_http x server (new_context nil) req)
        ≡ (respond x
            (answer x (f d) (found x server (new_context nil) req s (plain t f) sn mn md))).out
  unfolding new_context run_service
  serve_http-plain server nil req sn mn t f md s d post path some_sn some_mn filled known has bare
        decodes =
      let c : Context Value = found x server (new_context nil) req s (plain t f) sn mn md in
      ap calls_of (
        serve_http-found x server (new_context nil) req sn mn md s (plain t f) post path some_sn
          some_mn filled known has
        ∙ ap (λ hs. put_back x (run_service x (plain t f) hs c)) bare)
      ∙ ap (λ a. (respond x a).out) (serve-plain t f d c decodes)

  respond-error :
      (e : GoError) (c : Context Value)
      → c.is_resp ≡ false
      → respond x (some e, c) ≡ resp_error x e c
  unfolding respond
  respond-error e c off = rw off refl

  answer_error :
      (e : GoError) (c : Context Value)
      → c.is_resp ≡ false
      → (respond x (answer x (one (some e)) c)).out ≡ (resp_error x e c).out
  unfolding answer
  answer_error e c off = ap (λ a. a.out) (respond-error e c off)

  answer_reply_error :
      (v : Value) (e : GoError) (c : Context Value)
      → c.is_resp ≡ false
      → (respond x (answer x (two v (some e)) c)).out ≡ (resp_error x e c).out
  unfolding answer
  answer_reply_error v e c off = ap (λ a. a.out) (respond-error e c off)

  -- A method that returns only nil.
  answer_nil :
      (c : Context Value)
      → c.out ≡ []
      → c.view.resp_metadata ≡ []
      → (respond x (answer x (one none) c)).out
        ≡ sets ((codes "Content-Type", c.req.content_type) ∷ [])
          ++ (write_header 200 ∷ map write ([] ∷ []))
  unfolding answer finish respond
  answer_nil c empty no_metadata = rw (empty, no_metadata) refl

  module _ (w : Wire) (snappy_decode : Str → Returned Str) (error_value new_error : Str → GoError)
      (bad_request : Str → Option GoError) where
    abbrev pub caller : ClientExternals
    caller = client_side x w snappy_decode error_value new_error bad_request

    -- The transport carries a request to the server and its answer back.
    abbrev pub through : Server Value → Request → (Sent → Request) → Sent → HttpOutcome
    through server nil carry sent =
        responds (w.deliver (calls_of (serve_http x server (new_context nil) (carry sent))))

    -- What is asked of what a method returns, on a server with snappy or without: a reply is readable
    -- for the client, and an error gets through to it.
    abbrev pub Carries : ClientEncoder Value → Str → Bool → Reply Value → Type 0
    Carries enc ct snappy (two r none) =
        Readable x w snappy_decode error_value new_error bad_request enc ct r snappy
    Carries enc ct snappy (one none) = Unit
    Carries enc ct snappy (one (some e)) =
        GetsThrough x w snappy_decode error_value new_error bad_request e e.status
    Carries enc ct snappy (two r (some e)) =
        GetsThrough x w snappy_decode error_value new_error bad_request e e.status

    answer-none :
        (enc : ClientEncoder Value) (v : Value) (c : Context Value)
        → Readable x w snappy_decode error_value new_error bad_request enc c.req.content_type v
            c.snappy
        → (answer x (two v none) c).0 ≡ none
    unfolding answer finish reply_calls
    answer-none enc v c readable = elim (Bool-cases c.snappy) [
      | inl on ↦
          let (bytes, marshals, undoes, full, reads) =
            subst
              (Readable x w snappy_decode error_value new_error bad_request enc c.req.content_type
                v)
              on readable in
          rw (on, finish) (rw marshals refl)
      | inr off ↦ rw (off, finish) refl
    ]

    -- What the client gets for what a method returns.
    abbrev pub reply_seen : Reply Value → Answered Value
    reply_seen (two r none) = returns 200 none (some r)
    reply_seen (one none) = returns 200 none none
    reply_seen (one (some e)) =
        error_seen x w snappy_decode error_value new_error bad_request e e.status
    reply_seen (two r (some e)) =
        error_seen x w snappy_decode error_value new_error bad_request e e.status

    read_response-nothing :
        (enc : ClientEncoder Value) (resp : HttpResponse)
        → resp.status ≡ 200
        → resp.body ≡ []
        → read_response caller true enc resp ≡ returns 200 none none
    unfolding read_response read_body
    read_response-nothing enc resp status e = rw (status, read_response) (rw (e, read_body) refl)

    read_response-reply_seen :
        (enc : ClientEncoder Value) (r : Reply Value) (c : Context Value)
        → c.out ≡ []
        → c.is_resp ≡ false
        → c.view.resp_metadata ≡ []
        → Carries enc c.req.content_type c.snappy r
        → read_response caller true enc (w.deliver (respond x (answer x r c)).out) ≡ reply_seen r
    read_response-reply_seen enc (two r none) c empty off no_metadata b =
        ap (λ a. read_response caller true enc (w.deliver a.out))
          (respond-none (answer x (two r none) c) (answer-none enc r c b))
        ∙ read_response-answer x w snappy_decode error_value new_error bad_request enc true r c
            empty (subst (IsPlain w.canonical) (sym no_metadata) tt)
            (ap (λ m. last_value w.canonical (codes "Snappy") m []) no_metadata) b
    read_response-reply_seen enc (one none) c empty off no_metadata b =
        let hs : Dict Str = (codes "Content-Type", c.req.content_type) ∷ [] in
        let plain = type-IsPlain w c.req.content_type in
        ap (λ cs. read_response caller true enc (w.deliver cs)) (answer_nil c empty no_metadata)
        ∙ read_response-nothing enc
            (w.deliver (sets hs ++ (write_header 200 ∷ map write ([] ∷ []))))
            (w.status hs 200 ([] ∷ []) plain ok-HasBody) (w.body hs 200 ([] ∷ []) plain ok-HasBody)
    read_response-reply_seen enc (one (some e)) c empty off no_metadata through =
        ap (λ cs. read_response caller true enc (w.deliver cs)) (answer_error e c off)
        ∙ read_response-resp_error x w snappy_decode error_value new_error bad_request enc e c empty
            through
    read_response-reply_seen enc (two r (some e)) c empty off no_metadata through =
        ap (λ cs. read_response caller true enc (w.deliver cs)) (answer_reply_error r e c off)
        ∙ read_response-resp_error x w snappy_decode error_value new_error bad_request enc e c empty
            through

    -- On a context that the pool makes, `Request` of a client with a JSON encoder, as those of New have,
    -- for a method without a context argument, of a service without handlers, with a value for the
    -- reply, returns what the method returns for the value that the server decodes: its reply with the
    -- status 200 and no error, nothing for a method that only returns nil, or its error, with its status
    -- or else 500. The request that arrives is a POST request whose path names the method and whose
    -- headers have values; a reply is readable and an error gets through, as `Carries` says.
    pub request-serve_http :
        (server : Server Value) (nil : Request) (carry : Sent → Request) (enc : ClientEncoder Value)
        (defaults header md : Dict Str) (configured : List Str) (url sn mn t body : Str)
        (f : Value → Reply Value) (s : Service Value) (v d : Value)
        → enc.marshal v ≡ value body
        → bad_request url ≡ none
        → let req : Request = carry (record {
          url = url;
          header = request_headers caller enc defaults header;
          body = body;
        }) in
          req.method ≡ codes "POST"
          → get_service_method req.path ≡ (sn, mn)
          → sn ≢ []
          → mn ≢ []
          → fill_metadata req.header [] ≡ some md
          → lookup sn server.service_map ≡ some s
          → lookup mn s.method ≡ some (plain t f)
          → s.handlers ≡ []
          → (encoder_for x req.content_type).decode t req.body ≡ value d
          → Carries enc req.content_type server.snappy (f d)
          → (request caller enc defaults configured true true
              (through server nil carry)
              (address url)
              sn
              header
              v).answer
            ≡ reply_seen (f d)
    unfolding request receive new_context
    request-serve_http server nil carry enc defaults header md configured url sn mn t body f s v d
          wrote good_url post path some_sn some_mn filled known has bare decodes carries =
        let headers = request_headers caller enc defaults header in
        let req = carry (record { url = url; header = headers; body = body }) in
        let c : Context Value = found x server (new_context nil) req s (plain t f) sn mn md in
        let send = through server nil carry in
        ap (λ b. (with_body caller enc defaults configured true true send sn header url b).answer)
          wrote
        ∙ ap
            (λ e.
              (with_request caller enc defaults configured true true send sn header url body
                e).answer)
            good_url
        ∙ ap (λ cs. read_response caller true enc (w.deliver cs))
            (serve_http-plain server nil req sn mn t f md s d post path some_sn some_mn filled known
              has bare decodes)
        ∙ read_response-reply_seen enc (f d) c refl refl refl carries
