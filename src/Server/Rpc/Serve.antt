-- ===== src/Server/Rpc/Serve.antt =====
-- server.go: `serve` and `respError`; context.go: `Context.Next`.
use kuja.Prelude.{ℕ, zero, suc, ◌+◌, ltb, ◌==◌, if◌then◌else◌, Bool, true, false}
use kuja.Prelude.{
  Option, none, some, List, [], ◌∷◌, ◌++◌, map, length, get_elem?, Str, codes, str_eq,
}
use kuja.Prelude.Dict.{Dict}
use kuja.Server.Rpc.{
  GoError, Call, set_header, write_header, write, Returned, fails, value, Encoder, Externals, Reply,
  one, two, Method, plain, with_context, Action, done, next, call, look, assign, Handler, Context,
}

module _ (x : Externals) where
  open x use {Value, json, proto, gogoproto, msgp, snappy_encode, internal_error, error_json}

  -- `ctx.w` receives calls, in order.
  abbrev pub emit : List Call → Context Value → Context Value
  emit cs c = record c { out = c.out ++ cs }

  abbrev pub report_status : Option ℕ → ℕ
  report_status none = 500
  report_status (some n) = n

  -- The calls for an error: JSON for an errors.Error, plain text for any other.
  abbrev pub error_calls : GoError → Option ℕ → List Call
  error_calls e (some status) =
      set_header (codes "Content-Type") (codes "application/json; charset=utf-8")
      ∷ write_header status
      ∷ map write (error_json e)
  error_calls e none =
      set_header (codes "Content-Type") (codes "text/plain; charset=utf-8")
      ∷ write_header 500
      ∷ write e.text
      ∷ []

  unfoldable pub resp_error : GoError → Context Value → Context Value
  resp_error e c = record c {
    is_resp = true;
    reports =
        c.reports
        ++ (record {
          service_id = c.view.service_id;
          service = c.view.service_name;
          method = c.view.method_name;
          status = report_status e.status;
          error = e;
        }
            ∷ []);
    out = c.out ++ error_calls e e.status;
  }

  -- The switch on the content type.
  unfoldable pub encoder_for : Str → Encoder Value
  encoder_for t =
      if str_eq t (codes "application/json")
      then json
      else if str_eq t (codes "application/proto")
      then proto
      else if str_eq t (codes "application/gogoproto")
      then gogoproto
      else if str_eq t (codes "application/msgp")
      then msgp
      else json

  -- `for name, val := range ctx.RespMetadata { ctx.w.Header().Set(name, val) }`
  abbrev pub metadata_calls : Dict Str → List Call
  metadata_calls m = map (λ e. set_header e.0 e.1) m

  -- The calls that answer with a reply, or the error of `Marshal`.
  unfoldable pub reply_calls : Str → Bool → Value → Returned (List Call)
  unfolding encoder_for
  reply_calls t true v = elim ((encoder_for t).marshal v) [
    | fails e ↦ fails e
    | value bytes ↦ value (
        set_header (codes "Content-Type") t
        ∷ set_header (codes "Snappy") (codes "true")
        ∷ write_header 200
        ∷ write (snappy_encode bytes)
        ∷ [])
  ]
  reply_calls t false v = value (
      set_header (codes "Content-Type") t ∷ write_header 200 ∷ map write ((encoder_for t).encode v))

  -- The part of `serve` behind the range over the response metadata.
  unfoldable pub finish : Option Value → Context Value → Option GoError × Context Value
  unfolding reply_calls
  finish none c = (
    none,
    emit (set_header (codes "Content-Type") c.req.content_type ∷ write_header 200 ∷ write [] ∷ [])
        (record c { is_resp = true }),
  )
  finish (some v) c = elim (reply_calls c.req.content_type c.snappy v) [
    | fails e ↦ (some e, c)
    | value calls ↦ (none, emit calls (record c { is_resp = true }))
  ]

  -- What `serve` does with the values that the method returned.
  unfoldable pub answer : Reply Value → Context Value → Option GoError × Context Value
  unfolding finish
  answer (one (some e)) c = (some e, c)
  answer (two v (some e)) c = (some e, c)
  answer (one none) c = finish none (emit (metadata_calls c.view.resp_metadata) c)
  answer (two v none) c = finish (some v) (emit (metadata_calls c.view.resp_metadata) c)

  -- The body is decoded into a new value of the argument's type.
  abbrev pub arg_type : Method Value → Str
  arg_type (plain t f) = t
  arg_type (with_context t f) = t

  unfoldable pub run_method : Method Value → Value → Context Value → Option GoError × Context Value
  unfolding answer
  run_method (plain t f) v c = answer (f v) c
  run_method (with_context t f) v c =
      let (view', reply) = f c.view v in answer reply (record c { view = view' })

  -- The text names the response, though it is the request that could not be decoded.
  abbrev pub decode_error : Str → GoError
  decode_error t = internal_error (codes "unable to encode response " ++ t)

  unfoldable pub serve_decoded :
      Method Value → Returned Value → Context Value → Option GoError × Context Value
  unfolding run_method
  serve_decoded mt (fails e) c = (some (decode_error c.req.content_type), c)
  serve_decoded mt (value v) c = run_method mt v c

  unfoldable pub serve : Method Value → Context Value → Option GoError × Context Value
  unfolding serve_decoded
  serve mt c =
      serve_decoded mt ((encoder_for c.req.content_type).decode (arg_type mt) c.req.body)
        (record c { is_resp = false })

  -- `if err := …; err != nil && !ctx.isResp { respError(err, ctx) }`
  unfoldable pub respond : Option GoError × Context Value → Context Value
  unfolding resp_error
  respond (none, c) = c
  respond (some e, c) = if c.is_resp then c else resp_error e c

  -- A run of a handler, with a bound on the calls of `Next`; `none` says that the bound was met.
  abbrev pub Run : Type 0
  Run = Context Value → Option (Option GoError × Context Value)

  unfoldable pub run_action : Run → Action → Run
  run_action nx (done e) c = some (e, c)
  run_action nx (next k) c = elim (nx c) [ none ↦ none | some (e, c') ↦ run_action nx (k e) c' ]
  run_action nx (call w k) c = run_action nx k (emit (w ∷ []) c)
  run_action nx (look k) c = run_action nx (k c.view) c
  run_action nx (assign v k) c = run_action nx k (record c { view = v })

  abbrev pub run_handler : Run → Option Handler → Run
  run_handler nx none c = none
  run_handler nx (some h) c = run_action nx (h c.req) c

  abbrev pub respond_run : Option (Option GoError × Context Value) → Option (Context Value)
  respond_run none = none
  respond_run (some r) = some (respond r)

  abbrev pub returns_nil : Option (Context Value) → Option (Option GoError × Context Value)
  returns_nil none = none
  returns_nil (some c) = some (none, c)

  -- `Context.Next`, which always returns nil. `ctx.mt` is set before any handler runs.
  unfoldable pub next_loop : ℕ → Method Value → Run
  next_loop zero mt c = none
  next_loop (suc fuel) mt c = elim (c.index + 1 == length c.handlers) [
    | true ↦ some (none, respond (serve mt c))
    | false ↦ elim (ltb (c.index + 1) (length c.handlers)) [
      | true ↦ returns_nil (
          respond_run (
            run_handler (next_loop fuel mt) (get_elem? c.handlers (c.index + 1))
              (record c { index = c.index + 1 })))
      | false ↦ some (none, c)
    ]
  ]
