-- ===== src/Client/Proto.antt =====
-- What a client gets for a reply that the server writes with an encoder of encoder/proto or
-- encoder/gogoproto, without snappy.
mod Tests
use kuja.Prelude.{
  ℕ, ◌≡◌, refl, ap, ◌∙◌, Bool, false, Option, none, some, List, [], ◌∷◌, ◌++◌, map, Str, codes,
  str_eq, All-append, true,
}
use kuja.Prelude.Dict.{Dict}
use kuja.Encoder.{ProtoPackage, write_marshalled, proto_encode, proto_marshal, proto_encoder}
use kuja.Encoder.Laws.{proto_encode-proto_marshal}
use kuja.Server.Rpc.{GoError, write_header, write, Returned, fails, value, Externals, two, Context}
use kuja.Server.Rpc.Serve.{encoder_for, answer}
use kuja.Client.Request.{
  ClientEncoder, ClientExternals, HttpResponse, Answered, returns, read_response, read_body,
  decoded,
}
use kuja.Client.Wire.{
  joined, last_value, sets, Wire, IsPlain, is_plain_name, ok-HasBody, type-IsPlain,
  last_value-append,
}
use kuja.Client.Pair.{client_side, answer-plain, snappy_unflagged}
use mathlib.Core.List.{append-nil}

-- The bytes that reach the client: none where the value cannot be marshalled.
abbrev pub marshalled_bytes : Returned Str → Str
marshalled_bytes (fails e) = []
marshalled_bytes (value bytes) = bytes

joined-write_marshalled :
    (send : Str → Option GoError) (r : Returned Str)
    → joined (write_marshalled send r).0 ≡ marshalled_bytes r
joined-write_marshalled send (fails e) = refl
joined-write_marshalled send (value bytes) = append-nil bytes

module _ (x : Externals) (w : Wire) (snappy_decode : Str → Returned Str)
    (error_value new_error : Str → GoError) (bad_request : Str → Option GoError) where
  open x use {Value}

  abbrev pub proto_client : ClientExternals
  proto_client = client_side x w snappy_decode error_value new_error bad_request

  -- An empty body is no reply and no error.
  abbrev pub body_seen : ClientEncoder Value → Str → Answered Value
  body_seen enc [] = returns 200 none none
  body_seen enc (b ∷ bytes) = decoded proto_client 200 (enc.unmarshal (b ∷ bytes))

  read_response-body_seen :
      (enc : ClientEncoder Value) (has_json : Bool) (resp : HttpResponse) (body : Str)
      → resp.status ≡ 200
      → resp.snappy ≡ []
      → resp.body ≡ body
      → read_response proto_client has_json enc resp ≡ body_seen enc body
  unfolding read_response read_body str_eq
  read_response-body_seen enc has_json resp [] status flag e =
      rw (status, read_response) (rw (e, read_body) refl)
  read_response-body_seen enc has_json resp (b ∷ bytes) status flag e =
      rw (status, read_response) (rw (e, read_body) (rw flag refl))

  -- Where the server answers with its encoder over proto or gogoproto, without snappy and with
  -- nothing written before, a client gets what its own encoder reads from the bytes to which the
  -- reply is marshalled. Where there are none, because the reply is no message, cannot be marshalled
  -- or is marshalled to no bytes, it gets the status 200, no error and no reply. The names of the
  -- method's response metadata are plain, and none of them is Snappy.
  pub read_response-proto_encoder :
      (enc : ClientEncoder Value) (has_json : Bool) (lib : ProtoPackage Value)
      (send : Str → Option GoError) (new : Str → Value) (v : Value) (c : Context Value)
      → c.out ≡ []
      → c.snappy ≡ false
      → IsPlain w.canonical c.view.resp_metadata
      → last_value w.canonical (codes "Snappy") c.view.resp_metadata [] ≡ []
      → encoder_for x c.req.content_type ≡ proto_encoder lib send new
      → read_response proto_client has_json enc (w.deliver (answer x (two v none) c).1.out)
        ≡ body_seen enc (marshalled_bytes (proto_marshal lib v))
  read_response-proto_encoder enc has_json lib send new v c empty off plain meta is_proto =
      let ct = c.req.content_type in
      let md = c.view.resp_metadata in
      let hs : Dict Str = md ++ ((codes "Content-Type", ct) ∷ []) in
      let hs_plain =
        All-append (λ (e : Str × Str). is_plain_name (w.canonical e.0) ≡ true) md
          ((codes "Content-Type", ct) ∷ []) plain (type-IsPlain w ct) in
      let ws : List Str = (encoder_for x ct).encode v in
      let resp = w.deliver (sets hs ++ (write_header 200 ∷ map write ws)) in
      let body : resp.body ≡ marshalled_bytes (proto_marshal lib v) =
        w.body hs 200 ws hs_plain ok-HasBody
        ∙ ap (λ e. joined (e.encode v)) is_proto
        ∙ ap (λ r. joined r.0) (proto_encode-proto_marshal lib send v)
        ∙ joined-write_marshalled send (proto_marshal lib v) in
      let flag : resp.snappy ≡ [] = w.no_snappy hs 200 ws hs_plain ok-HasBody (
        last_value-append w.canonical (codes "Snappy") md ((codes "Content-Type", ct) ∷ []) []
        ∙ snappy_unflagged x w ct _
        ∙ meta) in
      ap (λ cs. read_response proto_client has_json enc (w.deliver cs))
        (answer-plain x w v c empty off)
      ∙ read_response-body_seen enc has_json resp (marshalled_bytes (proto_marshal lib v))
          (w.status hs 200 ws hs_plain ok-HasBody) flag body
