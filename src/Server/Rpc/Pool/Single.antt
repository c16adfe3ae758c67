-- ===== src/Server/Rpc/Pool/Single.antt =====
-- The pool of a server whose services have one handler at most: every context has the index 0.
use kuja.Prelude.{
  ℕ, suc, ◌≤◌, ◌≡◌, ◌≢◌, refl, ap, ◌∙◌, sym, arith, Option, none, some, List, [], ◌∷◌, ◌++◌, All,
  All-middle, length, Str, codes, str_eq, Bool-cases, inl, inr, not, ◌&&◌, ◌||◌,
}
use mathlib.Core.Path.{subst}
use kuja.Prelude.Dict.{Dict, lookup, lookup-All}
use kuja.Server.Route.{get_service_method}
use kuja.Server.Rpc.{
  GoError, Externals, Request, Method, Action, done, next, call, look, assign, Handler, Context,
}
use kuja.Server.Rpc.Serve.{serve, respond, respond_run, run_action, next_loop, Run, emit}
use kuja.Server.Rpc.Http.{
  Service, Server, Exchange, answered, panics, stuck, found, run_service, fill_metadata, put_back,
  serve_method, serve_service, serve_filled, serve_route, serve_post, serve_http,
}
use kuja.Server.Rpc.Chain.{run_action_next, next_last, respond_keeps, serve_keeps}
use kuja.Server.Rpc.Nested.{OnceHandler, nested_service, run_service-nested_service}
use kuja.Server.Rpc.Fresh.{new_context, serve_http-found}
use kuja.Server.Rpc.Pool.{Pool, put, PoolStep, begins_new, begins, ends, drops, Reach, start, later}

module _ (x : Externals) where
  open x use {Value}

  -- A run that returns and leaves the handlers and the index alone.
  abbrev Stays : Context Value → Option (Option GoError × Context Value) → Type 0
  Stays c r =
      (e : Option GoError) × (c' : Context Value) × (r ≡ some (e, c'))
      × (c'.handlers ≡ c.handlers)
      × (c'.index ≡ c.index)

  run_action-Stays :
      (nx : Run x) (hs : List Handler) (i : ℕ)
      → ((c : Context Value) → c.handlers ≡ hs → c.index ≡ i → Stays c (nx c))
      → (a : Action) (c : Context Value) → c.handlers ≡ hs
      → c.index ≡ i
      → Stays c (run_action x nx a c)
  unfolding run_action
  run_action-Stays nx hs i ih (done e) c same at = (e, c, refl, refl, refl)
  run_action-Stays nx hs i ih (next k) c same at =
      let (e, c', runs, kept, still) = ih c same at in
      let (e₁, c₁, runs₁, kept₁, still₁) =
        run_action-Stays nx hs i ih (k e) c' (kept ∙ same) (still ∙ at) in
      (e₁, c₁, run_action_next x nx k c e c' runs ∙ runs₁, kept₁ ∙ kept, still₁ ∙ still)
  run_action-Stays nx hs i ih (call w k) c same at =
      run_action-Stays nx hs i ih k (emit x (w ∷ []) c) same at
  run_action-Stays nx hs i ih (look k) c same at = run_action-Stays nx hs i ih (k c.view) c same at
  run_action-Stays nx hs i ih (assign v k) c same at =
      run_action-Stays nx hs i ih k (record c { view = v }) same at

  respond-serve :
      (mt : Method Value) (c : Context Value)
      → ((respond x (serve x mt c)).handlers ≡ c.handlers)
        × ((respond x (serve x mt c)).index ≡ c.index)
  respond-serve mt c =
      let kept = serve_keeps x mt c in
      let kept' = respond_keeps x (serve x mt c).0 (serve x mt c).1 in
      (kept'.0 ∙ kept.0, kept'.1 ∙ kept.1)

  next_loop-Stays :
      (fuel : ℕ) (mt : Method Value) (h : Handler) (c : Context Value)
      → c.handlers ≡ h ∷ []
      → c.index ≡ 0
      → Stays c (next_loop x (suc fuel) mt c)
  next_loop-Stays fuel mt h c same at =
      let one = ap {B = ℕ} length same in
      let (kept, still) = respond-serve mt c in
      (none, respond x (serve x mt c), next_last x fuel mt c (ground (arith, one)), kept, still)

  -- A context with the index 0 is put back with it.
  run_service-index :
      (mt : Method Value) (hs : List Handler) (c c' : Context Value)
      → length hs ≤ 1
      → c.handlers ≡ hs
      → c.index ≡ 0
      → run_service x mt hs c ≡ some c'
      → c'.index ≡ 0
  unfolding run_service
  run_service-index mt [] c c' few same at e =
      let s : respond x (serve x mt c) ≡ c' = cc in
      ap (λ d. d.index) (sym s) ∙ (respond-serve mt c).1 ∙ at
  run_service-index mt (h ∷ []) c c' few same at e =
      let (err, c₁, runs, kept, still) =
        run_action-Stays (next_loop x 1 mt) (h ∷ []) 0 (next_loop-Stays 0 mt h) (h c.req) c same
          at in
      let whole : some (respond x (err, c₁)) ≡ some c' = sym (ap (respond_run x) runs) ∙ e in
      let s : respond x (err, c₁) ≡ c' = cc in
      ap (λ d. d.index) (sym s) ∙ (respond_keeps x err c₁).1 ∙ still ∙ at
  run_service-index mt (h ∷ k ∷ hs) c c' few same at e = absurd (omega arith)

  -- An exchange that puts no context back but one with the index 0.
  abbrev PutsZero : Exchange Value → Type 0
  PutsZero (answered cs none) = Unit
  PutsZero (answered cs (some c)) = c.index ≡ 0
  PutsZero panics = Unit
  PutsZero stuck = Unit

  put_back-PutsZero :
      (o : Option (Context Value))
      → ((c : Context Value) → o ≡ some c → c.index ≡ 0)
      → PutsZero (put_back x o)
  put_back-PutsZero none h = tt
  put_back-PutsZero (some c) h = h c refl

  -- Each service of the server has one handler at most.
  abbrev pub IsSingle : Server Value → Type 0
  IsSingle server = All (λ e. length e.1.handlers ≤ 1) server.service_map

  module _ (server : Server Value) (single : IsSingle server) (c : Context Value) (req : Request)
      (at : c.index ≡ 0) (sn mn : Str) where
    serve_method-PutsZero :
        (md : Dict Str) (s : Service Value) (o : Option (Method Value))
        → length s.handlers ≤ 1
        → PutsZero (serve_method x server c req sn mn md s o)
    serve_method-PutsZero md s none few = tt
    serve_method-PutsZero md s (some mt) few =
        let ctx = found x server c req s mt sn mn md in
        put_back-PutsZero (run_service x mt s.handlers ctx)
          (λ c' e. run_service-index mt s.handlers ctx c' few refl at e)

    serve_service-PutsZero :
        (md : Dict Str) (o : Option (Service Value))
        → lookup sn server.service_map ≡ o
        → PutsZero (serve_service x server c req sn mn md o)
    serve_service-PutsZero md none e = tt
    serve_service-PutsZero md (some s) e =
        serve_method-PutsZero md s (lookup mn s.method)
          (lookup-All (λ s. length s.handlers ≤ 1) sn s server.service_map single e)

    serve_filled-PutsZero : (o : Option (Dict Str)) → PutsZero (serve_filled x server c req sn mn o)
    serve_filled-PutsZero none = tt
    serve_filled-PutsZero (some md) = serve_service-PutsZero md (lookup sn server.service_map) refl

    serve_post-PutsZero : PutsZero (serve_post x server c req (sn, mn))
    unfolding serve_post serve_route
    serve_post-PutsZero = elim (Bool-cases (str_eq sn [] || str_eq mn [])) [
      | inl unnamed ↦ rw unnamed tt
      | inr named ↦ rw named (serve_filled-PutsZero (fill_metadata req.header c.view.req_metadata))
    ]

  serve_http-PutsZero :
      (server : Server Value) (c : Context Value) (req : Request)
      → IsSingle server
      → c.index ≡ 0
      → PutsZero (serve_http x server c req)
  unfolding serve_http
  serve_http-PutsZero server c req single at =
      let (sn, mn) = get_service_method req.path in
      let post = serve_post-PutsZero server single c req at sn mn in
      elim (Bool-cases (str_eq req.method (codes "GET") && str_eq req.path (codes "/health"))) [
        | inl health ↦ rw health tt
        | inr other ↦ elim (Bool-cases (not (str_eq req.method (codes "POST")))) [
          | inl must_post ↦ rw (other, must_post) tt
          | inr is_post ↦ rw (other, is_post) post
        ]
      ]

  -- All contexts of the pool, idle or in use, have the index 0.
  pub record AllZero (p : Pool Value) : Type 0 where
    pub idle_zero : All (λ c. c.index ≡ 0) p.idle
    pub running_zero : All (λ r. r.0.index ≡ 0) p.running

  put-zero :
      (ex : Exchange Value) (idle : List (Context Value))
      → PutsZero ex
      → All (λ c. c.index ≡ 0) idle
      → All (λ c. c.index ≡ 0) (put ex idle)
  put-zero (answered cs none) idle h all = all
  put-zero (answered cs (some c)) idle h all = (h, all)
  put-zero panics idle h all = all
  put-zero stuck idle h all = all

  module _ (server : Server Value) (nil : Request) where
    zero_middle :
        (before after l : List (Context Value)) (c : Context Value)
        → l ≡ before ++ (c ∷ after)
        → All (λ c. c.index ≡ 0) l
        → (c.index ≡ 0) × All (λ c. c.index ≡ 0) (before ++ after)
    zero_middle before after l c e all =
        All-middle (λ c. c.index ≡ 0) before after c (subst (All (λ c. c.index ≡ 0)) e all)

    PoolStep-AllZero :
        {p q : Pool Value} → IsSingle server → PoolStep x server nil p q → AllZero p → AllZero q
    unfolding new_context
    PoolStep-AllZero single (begins_new req) z = record {
      idle_zero = z.idle_zero;
      running_zero = (refl, z.running_zero);
    }
    PoolStep-AllZero {p} single (begins before after c req e) z =
        let (at, idle) = zero_middle before after p.idle c e z.idle_zero in
        record { idle_zero = idle; running_zero = (at, z.running_zero) }
    PoolStep-AllZero {p} single (ends before after c req e) z =
        let (at, running) =
          All-middle (λ r. r.0.index ≡ 0) before after (c, req)
            (subst (All (λ r. r.0.index ≡ 0)) e z.running_zero) in
        record {
          idle_zero =
              put-zero (serve_http x server c req) p.idle
                (serve_http-PutsZero server c req single at) z.idle_zero;
          running_zero = running;
        }
    PoolStep-AllZero {p} single (drops before after c e) z = record {
      idle_zero = (zero_middle before after p.idle c e z.idle_zero).1;
      running_zero = z.running_zero;
    }

    -- However requests overlap, on a server whose services have one handler at most, middleware
    -- included, every context that the pool holds or has handed out has the index 0.
    pub Reach-AllZero : {p : Pool Value} → IsSingle server → Reach x server nil p → AllZero p
    Reach-AllZero single start = record { idle_zero = tt; running_zero = tt }
    Reach-AllZero single (later r st) = PoolStep-AllZero single st (Reach-AllZero single r)

    -- However requests overlap, on a server whose services have one handler at most, middleware
    -- included, a POST request that has begun and names a method is answered by the handler around
    -- the method, where the handler calls Next once at most and the headers have values.
    pub Reach-nested_service :
        {p : Pool Value} (before after : List (Context Value × Request)) (c : Context Value)
        (req : Request) (sn mn : Str) (md : Dict Str) (s : Service Value) (mt : Method Value)
        → IsSingle server
        → Reach x server nil p
        → p.running ≡ before ++ ((c, req) ∷ after)
        → req.method ≡ codes "POST"
        → get_service_method req.path ≡ (sn, mn)
        → sn ≢ []
        → mn ≢ []
        → fill_metadata req.header c.view.req_metadata ≡ some md
        → lookup sn server.service_map ≡ some s
        → lookup mn s.method ≡ some mt
        → All OnceHandler s.handlers
        → serve_http x server c req
          ≡ put_back x (nested_service x mt s.handlers (found x server c req s mt sn mn md))
    Reach-nested_service before after c req sn mn md s mt single r in_use post path some_sn some_mn
          filled known has once =
        let (at, others) =
          All-middle (λ r. r.0.index ≡ 0) before after (c, req)
            (subst (All (λ r. r.0.index ≡ 0)) in_use (Reach-AllZero single r).running_zero) in
        serve_http-found x server c req sn mn md s mt post path some_sn some_mn filled known has
        ∙ ap (put_back x) (
            run_service-nested_service x mt s.handlers (found x server c req s mt sn mn md) refl at
              once)
