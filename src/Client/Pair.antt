-- ===== src/Client/Pair.antt =====
-- A client and a server together: what `Request` of client/client.go makes of the answer that `serve`
-- and `respError` of server.go write. The transport between them is a parameter.
use mathlib.Core.List.{append-nil}
use mathlib.Core.Path.{subst}
use kuja.Prelude.{
  ℕ, ◌≡◌, ◌≢◌, refl, sym, ap, ◌∙◌, Bool, true, false, Bool-cases, inl, inr, Option, none, some,
  List, [], ◌∷◌, ◌++◌, map, Str, codes, str_eq, All-append,
}
use kuja.Prelude.Dict.{Dict}
use kuja.Server.Rpc.{GoError, Call, write_header, write, Returned, value, Externals, two, Context}
use kuja.Server.Rpc.Serve.{encoder_for, reply_calls, finish, answer}
use kuja.Client.Request.{
  ClientEncoder, ClientExternals, HttpResponse, returns, read_response, read_body, unpack,
  decode_with, decoded,
}
use kuja.Client.Wire.{
  joined, last_value, sets, Wire, IsPlain, is_plain_name, ok-HasBody, type-IsPlain, flagged-IsPlain,
  last_value-append, sets-append,
}

not_nil : (s : Str) → s ≢ [] → (c : ℕ) × (t : Str) × (s ≡ c ∷ t)
not_nil [] ne = absurd (ne refl)
not_nil (c ∷ t) ne = (c, t, refl)

module _ (x : Externals) (w : Wire) where
  open x use {Value, snappy_encode, error_json}

  pub snappy_unflagged :
      (ct found : Str)
      → last_value w.canonical (codes "Snappy") ((codes "Content-Type", ct) ∷ []) found ≡ found
  unfolding str_eq
  snappy_unflagged ct found = rw (w.canonical_type) refl

  snappy_flagged :
      (ct found : Str)
      → last_value w.canonical
          (codes "Snappy")
          ((codes "Content-Type", ct) ∷ (codes "Snappy", codes "true") ∷ [])
          found
        ≡ codes "true"
  unfolding str_eq
  snappy_flagged ct found = rw (w.canonical_type, w.canonical_snappy) refl

  finish_value :
      (v : Value) (c : Context Value) (b : Bool) (calls : List Call)
      → c.snappy ≡ b
      → reply_calls x c.req.content_type b v ≡ value calls
      → (finish x (some v) c).1.out ≡ c.out ++ calls
  unfolding finish
  finish_value v c b calls flag e = rw (flag, finish) (rw (e, finish))

  reply_calls-snappy :
      (t : Str) (v : Value) (bytes : Str)
      → (encoder_for x t).marshal v ≡ value bytes
      → reply_calls x t true v
        ≡ value (
            sets ((codes "Content-Type", t) ∷ (codes "Snappy", codes "true") ∷ [])
            ++ (write_header 200 ∷ map write (snappy_encode bytes ∷ [])))
  unfolding reply_calls
  reply_calls-snappy t v bytes e = rw (e, reply_calls)

  -- The calls of an answer with a reply.
  answer_calls :
      (v : Value) (c : Context Value) (b : Bool) (hs : Dict Str) (cs : List Call)
      → c.out ≡ []
      → c.snappy ≡ b
      → reply_calls x c.req.content_type b v ≡ value (sets hs ++ cs)
      → (answer x (two v none) c).1.out ≡ sets (c.view.resp_metadata ++ hs) ++ cs
  unfolding answer
  answer_calls v c b hs cs empty flag e =
      finish_value v (record c { out = c.out ++ sets c.view.resp_metadata }) b (sets hs ++ cs) flag
        e
      ∙ ap (λ o. (o ++ sets c.view.resp_metadata) ++ (sets hs ++ cs)) empty
      ∙ sets-append c.view.resp_metadata hs cs

  pub answer-plain :
      (v : Value) (c : Context Value)
      → c.out ≡ []
      → c.snappy ≡ false
      → (answer x (two v none) c).1.out
        ≡ sets (c.view.resp_metadata ++ ((codes "Content-Type", c.req.content_type) ∷ []))
          ++ (write_header 200 ∷ map write ((encoder_for x c.req.content_type).encode v))
  unfolding reply_calls
  answer-plain v c empty off =
      answer_calls v c false ((codes "Content-Type", c.req.content_type) ∷ []) _ empty off refl

  answer-snappy :
      (v : Value) (bytes : Str) (c : Context Value)
      → c.out ≡ []
      → c.snappy ≡ true
      → (encoder_for x c.req.content_type).marshal v ≡ value bytes
      → (answer x (two v none) c).1.out
        ≡ sets (
            c.view.resp_metadata
            ++ ((codes "Content-Type", c.req.content_type) ∷ (codes "Snappy", codes "true") ∷ []))
          ++ (write_header 200 ∷ map write (snappy_encode bytes ∷ []))
  answer-snappy v bytes c empty on e =
      answer_calls v c true
        ((codes "Content-Type", c.req.content_type) ∷ (codes "Snappy", codes "true") ∷ []) _ empty
        on (reply_calls-snappy c.req.content_type v bytes e)

  module _ (snappy_decode : Str → Returned Str) (error_value new_error : Str → GoError)
      (bad_request : Str → Option GoError) where
    abbrev pub client_side : ClientExternals
    client_side = record {
      Value = Value;
      snappy_decode = snappy_decode;
      error_value = error_value;
      new_error = new_error;
      bad_request = bad_request;
      canonical = w.canonical;
    }

    read_body_lem :
        (enc : ClientEncoder Value) (resp : HttpResponse) (b : ℕ) (rest bytes : Str) (v : Value)
        → resp.body ≡ b ∷ rest
        → unpack client_side (str_eq resp.snappy (codes "true")) resp.body ≡ value bytes
        → enc.unmarshal bytes ≡ value v
        → read_body client_side enc resp ≡ returns resp.status none (some v)
    unfolding read_body
    read_body_lem enc resp b rest bytes v full unpacked e =
        rw (full, read_body)
          (ap (decode_with client_side enc resp.status)
              (ap (unpack client_side (str_eq resp.snappy (codes "true"))) (sym full) ∙ unpacked)
            ∙ ap (decoded client_side resp.status) e)

    -- A response with status 200 and a body that is not empty is decoded.
    read_response_lem :
        (enc : ClientEncoder Value) (has_json : Bool) (resp : HttpResponse) (bytes : Str)
        (v : Value)
        → resp.status ≡ 200
        → resp.body ≢ []
        → unpack client_side (str_eq resp.snappy (codes "true")) resp.body ≡ value bytes
        → enc.unmarshal bytes ≡ value v
        → read_response client_side has_json enc resp ≡ returns 200 none (some v)
    unfolding read_response
    read_response_lem enc has_json resp bytes v status full unpacked e =
        let (b, rest, cons) = not_nil resp.body full in
        rw (status, read_response)
          (read_body_lem enc (record resp { status = 200 }) b rest bytes v cons unpacked e)

    -- How a reply gets through, by whether snappy is on. Without it, the bytes that `Encode` writes
    -- are not empty, and the client's encoder reads them as the reply. With it, the reply can be
    -- marshalled, the client's snappy codec undoes the server's on these bytes, their snappy form is
    -- not empty, and the client's encoder reads the bytes as the reply.
    abbrev pub Readable : ClientEncoder Value → Str → Value → Bool → Type 0
    Readable enc ct v false =
        (joined ((encoder_for x ct).encode v) ≢ [])
        × (enc.unmarshal (joined ((encoder_for x ct).encode v)) ≡ value v)
    Readable enc ct v true =
        (bytes : Str) × ((encoder_for x ct).marshal v ≡ value bytes)
        × (snappy_decode (snappy_encode bytes) ≡ value bytes)
        × (snappy_encode bytes ≢ [])
        × (enc.unmarshal bytes ≡ value v)

    -- What a method replied is what the client decodes, with the status 200 and no error, where the
    -- server wrote nothing before and the reply gets through as `Readable` says. The names of the
    -- method's response metadata are plain, and none of them is Snappy.
    pub read_response-answer :
        (enc : ClientEncoder Value) (has_json : Bool) (v : Value) (c : Context Value)
        → c.out ≡ []
        → IsPlain w.canonical c.view.resp_metadata
        → last_value w.canonical (codes "Snappy") c.view.resp_metadata [] ≡ []
        → Readable enc c.req.content_type v c.snappy
        → read_response client_side has_json enc (w.deliver (answer x (two v none) c).1.out)
          ≡ returns 200 none (some v)
    unfolding str_eq
    read_response-answer enc has_json v c empty plain meta readable =
        let ct = c.req.content_type in
        let md = c.view.resp_metadata in
        let named = λ (e : Str × Str). is_plain_name (w.canonical e.0) ≡ true in
        elim (Bool-cases c.snappy) [
          | inl on ↦
              let (bytes, marshals, undoes, full, reads) = subst (Readable enc ct v) on readable in
              let flags : Dict Str =
                (codes "Content-Type", ct) ∷ (codes "Snappy", codes "true") ∷ [] in
              let hs : Dict Str = md ++ flags in
              let hs_plain = All-append named md flags plain (flagged-IsPlain w ct) in
              let ws : List Str = snappy_encode bytes ∷ [] in
              let resp = w.deliver (sets hs ++ (write_header 200 ∷ map write ws)) in
              let whole : resp.body ≡ snappy_encode bytes =
                w.body hs 200 ws hs_plain ok-HasBody ∙ append-nil (snappy_encode bytes) in
              let flag : resp.snappy ≡ codes "true" =
                w.snappy hs 200 ws (codes "true") hs_plain ok-HasBody refl (
                  last_value-append w.canonical (codes "Snappy") md flags []
                  ∙ snappy_flagged ct _) in
              ap (λ cs. read_response client_side has_json enc (w.deliver cs))
                (answer-snappy v bytes c empty on marshals)
              ∙ read_response_lem enc has_json resp bytes v (w.status hs 200 ws hs_plain ok-HasBody)
                  (λ e. full (sym whole ∙ e)) (rw (flag, whole) undoes) reads
          | inr off ↦
              let (full, reads) = subst (Readable enc ct v) off readable in
              let hs : Dict Str = md ++ ((codes "Content-Type", ct) ∷ []) in
              let hs_plain =
                All-append named md ((codes "Content-Type", ct) ∷ []) plain (type-IsPlain w ct) in
              let ws : List Str = (encoder_for x ct).encode v in
              let resp = w.deliver (sets hs ++ (write_header 200 ∷ map write ws)) in
              let whole : resp.body ≡ joined ws = w.body hs 200 ws hs_plain ok-HasBody in
              let flag : resp.snappy ≡ [] = w.no_snappy hs 200 ws hs_plain ok-HasBody (
                last_value-append w.canonical (codes "Snappy") md ((codes "Content-Type", ct) ∷ [])
                  []
                ∙ snappy_unflagged ct _
                ∙ meta) in
              ap (λ cs. read_response client_side has_json enc (w.deliver cs))
                (answer-plain v c empty off)
              ∙ read_response_lem enc has_json resp (joined ws) v
                  (w.status hs 200 ws hs_plain ok-HasBody) (λ e. full (sym whole ∙ e))
                  (rw (flag, whole) refl) reads
        ]
