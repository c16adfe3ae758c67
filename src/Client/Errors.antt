-- ===== src/Client/Errors.antt =====
-- What a client makes of the errors that `respError` of server.go writes.
use mathlib.Core.List.{append-nil}
use kuja.Prelude.{
  ℕ, ◌≡◌, ◌≢◌, refl, sym, ap, ◌∙◌, arith, ◌==◌, Bool, true, false, Option, none, some, List, [],
  ◌∷◌, ◌++◌, Str, codes, str_eq,
}
use kuja.Prelude.Dict.{Dict}
use kuja.Server.Rpc.{GoError, Returned, Externals, Context}
use kuja.Server.Rpc.Serve.{resp_error, error_calls}
use kuja.Client.Request.{
  ClientEncoder, ClientExternals, HttpResponse, HttpOutcome, responds, Answered, returns,
  read_response, receive,
}
use kuja.Client.Wire.{joined, last_value, Wire, HasBody, error-HasBody, type-IsPlain}
use kuja.Client.Pair.{client_side}
use kuja.Client.Request.{crashes}
use kuja.Client.{
  ClientOption, Hystrix, Client, is_some, has_json_encoder, new_with_registry,
  new_with_registry-nil,
}

module _ (x : Externals) (w : Wire) where
  open x use {Value, error_json}

  only_type :
      (ct : Str)
      → last_value w.canonical (codes "Content-Type") ((codes "Content-Type", ct) ∷ []) [] ≡ ct
  unfolding str_eq
  only_type ct = rw (w.canonical_type) refl

  module _ (snappy_decode : Str → Returned Str) (error_value new_error : Str → GoError)
      (bad_request : Str → Option GoError) where
    abbrev reader : ClientExternals
    reader = client_side x w snappy_decode error_value new_error bad_request

    read_response-json :
        (enc : ClientEncoder Value) (resp : HttpResponse)
        → resp.status ≢ 200
        → resp.content_type ≡ codes "application/json; charset=utf-8"
        → read_response reader true enc resp
          ≡ returns resp.status (some (error_value resp.body)) none
    unfolding read_response str_eq
    read_response-json enc resp ne e =
        let other : (resp.status == 200) ≡ false = ground (arith, ne) in
        rw (other, e, read_response) refl

    read_response-text :
        (enc : ClientEncoder Value) (has_json : Bool) (resp : HttpResponse)
        → resp.status ≢ 200
        → resp.content_type ≡ codes "text/plain; charset=utf-8"
        → read_response reader has_json enc resp
          ≡ returns resp.status (some (new_error resp.body)) none
    unfolding read_response str_eq
    read_response-text enc has_json resp ne e =
        let other : (resp.status == 200) ≡ false = ground (arith, ne) in
        rw (other, e, read_response) refl

    -- The client's view of an error: an errors.Error with its status, another error with status 500
    -- and its text.
    abbrev pub error_seen : GoError → Option ℕ → Answered Value
    error_seen e (some n) = returns n (some e) none
    error_seen e none = returns 500 (some (new_error e.text)) none

    -- What is asked of an error that is to get through: an errors.Error has a status with a body that
    -- is not 200, and the JSON encoder of the client reads its JSON text back as the error.
    abbrev pub GetsThrough : GoError → Option ℕ → Type 0
    GetsThrough e none = Unit
    GetsThrough e (some n) = (n ≢ 200) × HasBody n × (error_value (joined (error_json e)) ≡ e)

    seen_json :
        (enc : ClientEncoder Value) (e : GoError) (n : ℕ)
        → GetsThrough e (some n)
        → read_response reader true enc (w.deliver (error_calls x e (some n)))
          ≡ error_seen e (some n)
    unfolding str_eq
    seen_json enc e n (other, has_body, back) =
        let ct : Str = codes "application/json; charset=utf-8" in
        let hs : Dict Str = (codes "Content-Type", ct) ∷ [] in
        let plain = type-IsPlain w ct in
        let resp = w.deliver (error_calls x e (some n)) in
        let status : resp.status ≡ n = w.status hs n (error_json e) plain has_body in
        read_response-json enc resp (λ p. other (sym status ∙ p))
          (w.content_type hs n (error_json e) ct plain has_body refl (only_type ct))
        ∙ ap (λ s. returns s (some (error_value resp.body)) none) status
        ∙ ap (λ b. returns n (some (error_value b)) none)
            (w.body hs n (error_json e) plain has_body)
        ∙ ap (λ f. returns n (some f) none) back

    seen_text :
        (enc : ClientEncoder Value) (has_json : Bool) (e : GoError)
        → read_response reader has_json enc (w.deliver (error_calls x e none)) ≡ error_seen e none
    unfolding str_eq
    seen_text enc has_json e =
        let ct : Str = codes "text/plain; charset=utf-8" in
        let hs : Dict Str = (codes "Content-Type", ct) ∷ [] in
        let plain = type-IsPlain w ct in
        let resp = w.deliver (error_calls x e none) in
        let status : resp.status ≡ 500 = w.status hs 500 (e.text ∷ []) plain error-HasBody in
        read_response-text enc has_json resp (λ p. omega (arith, status, p))
          (w.content_type hs 500 (e.text ∷ []) ct plain error-HasBody refl (only_type ct))
        ∙ ap (λ s. returns s (some (new_error resp.body)) none) status
        ∙ ap (λ b. returns 500 (some (new_error b)) none)
            (w.body hs 500 (e.text ∷ []) plain error-HasBody ∙ append-nil e.text)

    seen_error :
        (enc : ClientEncoder Value) (e : GoError) (o : Option ℕ)
        → GetsThrough e o
        → read_response reader true enc (w.deliver (error_calls x e o)) ≡ error_seen e o
    seen_error enc e none through = seen_text enc true e
    seen_error enc e (some n) through = seen_json enc e n through

    -- The error that `respError` writes, where nothing was written before, is the error that a client
    -- with a JSON encoder gets, with its status or else 500, if it gets through.
    pub read_response-resp_error :
        (enc : ClientEncoder Value) (e : GoError) (c : Context Value)
        → c.out ≡ []
        → GetsThrough e e.status
        → read_response reader true enc (w.deliver (resp_error x e c).out) ≡ error_seen e e.status
    unfolding resp_error
    read_response-resp_error enc e c empty through =
        ap (λ o. read_response reader true enc (w.deliver (o ++ error_calls x e e.status))) empty
        ∙ seen_error enc e e.status through

    read_response-crash :
        (enc : ClientEncoder Value) (resp : HttpResponse)
        → resp.status ≢ 200
        → resp.content_type ≡ codes "application/json; charset=utf-8"
        → read_response reader false enc resp ≡ crashes
    unfolding read_response str_eq
    read_response-crash enc resp ne e =
        let other : (resp.status == 200) ≡ false = ground (arith, ne) in
        rw (other, e, read_response) refl

    -- A client that `NewWithRegistry` returned panics on an errors.Error of a method, with a status
    -- that has a body and is not 200, where nothing was written before, if the caller gives a value for
    -- the reply. If he gives none, the client returns the status and no error.
    pub receive-no_json :
        {B E T R : Type 0} (connect : B → Option Str) (json : E) (r : R) (watch : Bool)
        (opts : List (ClientOption B E T)) (h : Hystrix) (client : Client B E T R)
        (enc : ClientEncoder Value) (e : GoError) (c : Context Value) (n : ℕ)
        → (new_with_registry connect json r watch opts h).result ≡ some client
        → c.out ≡ []
        → e.status ≡ some n
        → n ≢ 200
        → HasBody n
        → let answer : HttpOutcome = responds (w.deliver (resp_error x e c).out) in
          (receive reader (has_json_encoder client) true enc answer ≡ crashes)
          × (receive reader (has_json_encoder client) false enc answer ≡ returns n none none)
    unfolding resp_error str_eq receive
    receive-no_json connect json r watch opts h client enc e c n made empty status ne has_body =
        let ct : Str = codes "application/json; charset=utf-8" in
        let hs : Dict Str = (codes "Content-Type", ct) ∷ [] in
        let plain = type-IsPlain w ct in
        let resp = w.deliver (error_calls x e (some n)) in
        let code : resp.status ≡ n = w.status hs n (error_json e) plain has_body in
        let calls : c.out ++ error_calls x e e.status ≡ error_calls x e (some n) =
          ap (λ o. o ++ error_calls x e e.status) empty ∙ ap (error_calls x e) status in
        (
          ap
                (λ j.
                  read_response reader (is_some j) enc
                    (w.deliver (c.out ++ error_calls x e e.status)))
                (new_with_registry-nil connect json r watch opts h client made)
              ∙ ap (λ cs. read_response reader false enc (w.deliver cs)) calls
              ∙ read_response-crash enc resp (λ p. ne (sym code ∙ p))
                  (w.content_type hs n (error_json e) ct plain has_body refl (only_type ct)),
          ap (λ cs. returns (w.deliver cs).status none none) calls
              ∙ ap (λ s. returns s none none) code,
        )
