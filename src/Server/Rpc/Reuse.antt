-- ===== src/Server/Rpc/Reuse.antt =====
-- What a context that the pool hands out again keeps of the request before: its index and its
-- request metadata.
use kuja.Prelude.{
  ℕ, zero, suc, ◌+◌, ◌≤◌, ◌<◌, ◌≡◌, ◌≢◌, refl, ap, ◌∙◌, arith, ◌==◌, Bool-cases, inl, inr, true,
}
use kuja.Prelude.{
  Option, none, some, List, [], ◌∷◌, length, get_elem?, replicate, length-replicate, Str,
}
use kuja.Prelude.Dict.{Dict, lookup, insert, lookup-insert_ne, Misses}
use kuja.Server.Rpc.{GoError, Externals, Method, done, next, Handler, Context, Request}
use kuja.Server.Rpc.Serve.{serve, respond, run_action, next_loop, respond_run}
use kuja.Server.Rpc.Http.{
  Service, Server, stuck, found, run_service, fill_metadata, serve_route, serve_post, serve_http,
  put_back, serve_filled, serve_service, serve_method,
}
use kuja.Server.Route.{get_service_method}
use kuja.Server.Rpc.Chain.{
  run_action-Returns, next_loop-Returns, run_action_next, next_last, next_past, next_inner,
  respond_keeps, serve_keeps,
}

-- A middleware that only calls `ctx.Next` and returns what it returns.
abbrev pub pass_through : Handler
pass_through req = next (λ e. done e)

get_elem?-replicate {ℓ} :
    {A : Type ℓ} (n i : ℕ) (a : A) → i < n → get_elem? (replicate n a) i ≡ some a
get_elem?-replicate zero i a h = elim h [ ]
get_elem?-replicate (suc n) zero a h = refl
get_elem?-replicate (suc n) (suc i) a h = get_elem?-replicate n i a (omega arith)

module _ (x : Externals) where
  open x use {Value}

  -- `ServeHTTP` ends, whatever context the pool hands out.
  run_service-some :
      (mt : Method Value) (hs : List Handler) (c : Context Value)
      → c.handlers ≡ hs
      → (c' : Context Value) × (run_service x mt hs c ≡ some c')
  unfolding run_service
  run_service-some mt [] c same = (respond x (serve x mt c), refl)
  run_service-some mt (h ∷ hs) c same =
      let (e, c', runs, kept, up) =
        run_action-Returns x (next_loop x (suc (length hs)) mt) (h ∷ hs) 0
          (λ d kept low.
            next_loop-Returns x (suc (length hs)) mt d (omega arith)
              (omega (arith, ap {B = ℕ} length kept)))
          (h c.req) c same (omega arith) in
      (respond x (e, c'), rw runs)

  put_back-ne-stuck :
      (o : Option (Context Value)) (c : Context Value) → o ≡ some c → put_back x o ≢ stuck
  put_back-ne-stuck none c h e = cc
  put_back-ne-stuck (some d) c h e = cc

  module _ (server : Server Value) (got : Context Value) (req : Request) (sn mn : Str) where
    serve_method-ne-stuck :
        (md : Dict Str) (s : Service Value) (o : Option (Method Value))
        → serve_method x server got req sn mn md s o ≢ stuck
    serve_method-ne-stuck md s none e = cc
    serve_method-ne-stuck md s (some mt) e =
        let c = found x server got req s mt sn mn md in
        let (c', runs) = run_service-some mt s.handlers c refl in
        put_back-ne-stuck (run_service x mt s.handlers c) c' runs e

    serve_service-ne-stuck :
        (md : Dict Str) (o : Option (Service Value))
        → serve_service x server got req sn mn md o ≢ stuck
    serve_service-ne-stuck md none e = cc
    serve_service-ne-stuck md (some s) e = serve_method-ne-stuck md s (lookup mn s.method) e

    serve_filled-ne-stuck : (o : Option (Dict Str)) → serve_filled x server got req sn mn o ≢ stuck
    serve_filled-ne-stuck none e = cc
    serve_filled-ne-stuck (some md) e = serve_service-ne-stuck md (lookup sn server.service_map) e

    serve_route-ne-stuck : serve_route x server got req sn mn ≢ stuck
    unfolding serve_route
    serve_route-ne-stuck = serve_filled-ne-stuck (fill_metadata req.header got.view.req_metadata)

  -- `ServeHTTP` ends for every request and every context that the pool hands out: the number of
  -- handlers bounds the depth of the calls of `Next`.
  pub serve_http-ne-stuck :
      (server : Server Value) (got : Context Value) (req : Request)
      → serve_http x server got req ≢ stuck
  unfolding serve_http serve_post
  serve_http-ne-stuck server got req =
      let (sn, mn) = get_service_method req.path in
      ground (arith, serve_route-ne-stuck server got req sn mn)

  -- The first handler calls `Next` on a context whose index is that of the last handler: the
  -- service's method runs at once.
  pub run_service-last :
      (mt : Method Value) (rest : List Handler) (c : Context Value)
      → c.handlers ≡ pass_through ∷ rest
      → c.index ≡ length rest
      → run_service x mt (pass_through ∷ rest) c ≡ some (respond x (serve x mt c))
  unfolding run_service run_action respond
  run_service-last mt rest c same e =
      let at_last : (c.index + 1 == length c.handlers) ≡ true =
        ground (arith, ap {B = ℕ} length same) in
      ap (respond_run x) (
        run_action_next x (next_loop x (suc (length rest)) mt) (λ e. done e) c none
          (respond x (serve x mt c)) (next_last x (length rest) mt c at_last))

  -- With the index of the last handler or above, nothing runs at all behind the first handler.
  pub run_service-past :
      (mt : Method Value) (rest : List Handler) (c : Context Value)
      → c.handlers ≡ pass_through ∷ rest
      → length rest < c.index
      → run_service x mt (pass_through ∷ rest) c ≡ some c
  unfolding run_service run_action respond
  run_service-past mt rest c same above =
      let n : length c.handlers ≡ suc (length rest) = ap {B = ℕ} length same in
      ap (respond_run x) (
        run_action_next x (next_loop x (suc (length rest)) mt) (λ e. done e) c none c
          (next_past x (length rest) mt c (ground arith) (ground arith)))

  respond_none :
      (c : Context Value)
      → ◌≡◌ {A = Option (Option GoError × Context Value)}
          (some (none, respond x (none, c)))
          (some (none, c))
  unfolding respond
  respond_none c = refl

  pass_runs :
      (fuel : ℕ) (mt : Method Value) (c c' : Context Value)
      → next_loop x fuel mt c ≡ some (none, c')
      → run_action x (next_loop x fuel mt) (pass_through c.req) c ≡ some (none, c')
  unfolding run_action
  pass_runs fuel mt c c' h = run_action_next x (next_loop x fuel mt) (λ e. done e) c none c' h

  -- On a service whose handlers all pass through, `Next` leaves the index at the last handler.
  next_loop-pass :
      (fuel n : ℕ) (mt : Method Value) (c : Context Value)
      → c.handlers ≡ replicate (suc n) pass_through
      → c.index ≤ n
      → n < c.index + fuel
      → next_loop x fuel mt c ≡ some (none, respond x (serve x mt (record c { index = n })))
  next_loop-pass zero n mt c same low enough = absurd (omega arith)
  next_loop-pass (suc fuel) n mt c same low enough =
      let count : length c.handlers ≡ suc n =
        ap {B = ℕ} length same ∙ length-replicate (suc n) pass_through in
      elim (Bool-cases (c.index + 1 == length c.handlers)) [
        | inl last ↦ let e : n ≡ c.index = ground arith in next_last x fuel mt c last ∙ rw e
        | inr more ↦
            let inner : next_loop x fuel mt (record c { index = c.index + 1 })
                ≡ some (none, respond x (serve x mt (record c { index = n }))) =
              next_loop-pass fuel n mt (record c { index = c.index + 1 }) same (ground arith)
                (omega arith) in
            let handler : get_elem? c.handlers (c.index + 1) ≡ some pass_through =
              rw same (get_elem?-replicate (suc n) (c.index + 1) pass_through (ground arith)) in
            next_inner x fuel mt c pass_through none
              (respond x (serve x mt (record c { index = n }))) more (ground arith) handler
              (pass_runs fuel mt (record c { index = c.index + 1 })
                (respond x (serve x mt (record c { index = n }))) inner)
            ∙ respond_none (respond x (serve x mt (record c { index = n })))
      ]

  -- A context with an index of at most `n` that serves a request through `n + 1` handlers that only
  -- call `Next` is put back with the index `n`.
  pub run_service-pass_through :
      (n : ℕ) (mt : Method Value) (c : Context Value)
      → c.handlers ≡ replicate (suc n) pass_through
      → c.index ≤ n
      → (c' : Context Value) × (run_service x mt (replicate (suc n) pass_through) c ≡ some c')
        × (c'.index ≡ n)
  unfolding run_service
  run_service-pass_through n mt c same low =
      let fuel : ℕ = suc (length (replicate n pass_through)) in
      let served = serve x mt (record c { index = n }) in
      let rounds = length-replicate n pass_through in
      let runs =
        pass_runs fuel mt c (respond x served)
          (next_loop-pass fuel n mt c same low (omega arith)) in
      (
        respond x (none, respond x served),
        ap (respond_run x) runs,
        (respond_keeps x none (respond x served)).1
            ∙ (respond_keeps x served.0 served.1).1
            ∙ (serve_keeps x mt (record c { index = n })).1,
      )

-- A request leaves the entries of the request metadata that it has no header for: they are those
-- of the request that the context served before.
pub fill_metadata-kept :
    (header : Dict (List Str)) (md md' : Dict Str) (k : Str)
    → Misses k header
    → fill_metadata header md ≡ some md'
    → lookup k md' ≡ lookup k md
unfolding fill_metadata
fill_metadata-kept [] md md' k misses h = cc
fill_metadata-kept ((name, []) ∷ header) md md' k misses h = absurd cc
fill_metadata-kept ((name, v ∷ vs) ∷ header) md md' k (ne, misses) h =
    fill_metadata-kept header (insert name v md) md' k misses h ∙ lookup-insert_ne name k v md ne
