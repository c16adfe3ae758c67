-- ===== src/Server/Rpc/Chain.antt =====
-- The chain of handlers: `Next` ends, and what it does with the index that a context came with.
use kuja.Prelude.{
  ℕ, zero, suc, ◌+◌, ◌≤◌, ◌<◌, ◌≡◌, refl, ap, ◌∙◌, arith, ltb, ◌==◌, Bool-cases, inl, inr, true,
  false,
}
use kuja.Prelude.{Option, none, some, List, [], ◌∷◌, length, get_elem?}
use kuja.Server.Rpc.{
  GoError, Externals, Method, plain, with_context, one, two, Returned, fails, value, Action, done,
  next, call, look, assign, Handler, Context, Reply,
}
use kuja.Server.Rpc.Serve.{
  serve, serve_decoded, metadata_calls, respond, run_action, next_loop, Run, answer, finish,
  run_method, encoder_for, arg_type, emit,
}

module _ (x : Externals) where
  open x use {Value}

  -- A run that returns, leaves the handlers alone and does not lower the index.
  abbrev pub Returns : Context Value → Option (Option GoError × Context Value) → Type 0
  Returns c r =
      (e : Option GoError) × (c' : Context Value) × (r ≡ some (e, c'))
      × (c'.handlers ≡ c.handlers)
      × (c.index ≤ c'.index)

  finish_keeps :
      (v : Option Value) (c : Context Value)
      → ((finish x v c).1.handlers ≡ c.handlers) × ((finish x v c).1.index ≡ c.index)
  unfolding finish
  finish_keeps none c = (refl, refl)
  finish_keeps (some v) c = ground arith

  answer_keeps :
      (r : Reply Value) (c : Context Value)
      → ((answer x r c).1.handlers ≡ c.handlers) × ((answer x r c).1.index ≡ c.index)
  unfolding answer
  answer_keeps (one (some e)) c = (refl, refl)
  answer_keeps (two v (some e)) c = (refl, refl)
  answer_keeps (one none) c = finish_keeps none (emit x (metadata_calls x c.view.resp_metadata) c)
  answer_keeps (two v none) c =
      finish_keeps (some v) (emit x (metadata_calls x c.view.resp_metadata) c)

  run_method_keeps :
      (mt : Method Value) (v : Value) (c : Context Value)
      → ((run_method x mt v c).1.handlers ≡ c.handlers) × ((run_method x mt v c).1.index ≡ c.index)
  unfolding run_method
  run_method_keeps (plain t f) v c = answer_keeps (f v) c
  run_method_keeps (with_context t f) v c =
      answer_keeps (f c.view v).1 (record c { view = (f c.view v).0 })

  serve_decoded_keeps :
      (mt : Method Value) (r : Returned Value) (c : Context Value)
      → ((serve_decoded x mt r c).1.handlers ≡ c.handlers)
        × ((serve_decoded x mt r c).1.index ≡ c.index)
  unfolding serve_decoded
  serve_decoded_keeps mt (fails e) c = (refl, refl)
  serve_decoded_keeps mt (value v) c = run_method_keeps mt v c

  pub serve_keeps :
      (mt : Method Value) (c : Context Value)
      → ((serve x mt c).1.handlers ≡ c.handlers) × ((serve x mt c).1.index ≡ c.index)
  unfolding serve
  serve_keeps mt c =
      serve_decoded_keeps mt ((encoder_for x c.req.content_type).decode (arg_type x mt) c.req.body)
        (record c { is_resp = false })

  pub respond_keeps :
      (e : Option GoError) (c : Context Value)
      → ((respond x (e, c)).handlers ≡ c.handlers) × ((respond x (e, c)).index ≡ c.index)
  unfolding respond
  respond_keeps none c = (refl, refl)
  respond_keeps (some e) c = ground arith

  pub run_action_next :
      (nx : Run x) (k : Option GoError → Action) (c : Context Value) (e : Option GoError)
      (c' : Context Value)
      → nx c ≡ some (e, c')
      → run_action x nx (next k) c ≡ run_action x nx (k e) c'
  unfolding run_action
  run_action_next nx k c e c' h = rw (h, run_action)

  -- A run of a handler returns where each call of `Next` does.
  pub run_action-Returns :
      (nx : Run x) (hs : List Handler) (i : ℕ)
      → ((c : Context Value) → c.handlers ≡ hs → i ≤ c.index → Returns c (nx c))
      → (a : Action) (c : Context Value) → c.handlers ≡ hs
      → i ≤ c.index
      → Returns c (run_action x nx a c)
  unfolding run_action
  run_action-Returns nx hs i ih (done e) c same low = (e, c, refl, refl, omega arith)
  run_action-Returns nx hs i ih (next k) c same low =
      let (e, c', runs, kept, up) = ih c same low in
      let (e₁, c₁, runs₁, kept₁, up₁) =
        run_action-Returns nx hs i ih (k e) c' (kept ∙ same) (omega arith) in
      (e₁, c₁, run_action_next nx k c e c' runs ∙ runs₁, kept₁ ∙ kept, omega arith)
  run_action-Returns nx hs i ih (call w k) c same low =
      run_action-Returns nx hs i ih k (emit x (w ∷ []) c) same low
  run_action-Returns nx hs i ih (look k) c same low =
      run_action-Returns nx hs i ih (k c.view) c same low
  run_action-Returns nx hs i ih (assign v k) c same low =
      run_action-Returns nx hs i ih k (record c { view = v }) same low

  get_elem?-some :
      (hs : List Handler) (i : ℕ) → i < length hs → (h : Handler) × (get_elem? hs i ≡ some h)
  get_elem?-some [] i h = elim h [ ]
  get_elem?-some (g ∷ hs) zero h = (g, refl)
  get_elem?-some (g ∷ hs) (suc i) h = get_elem?-some hs i (omega arith)

  module _ (fuel : ℕ) (mt : Method Value) (c : Context Value) where
    pub next_last :
        (c.index + 1 == length c.handlers) ≡ true
        → next_loop x (suc fuel) mt c ≡ some (none, respond x (serve x mt c))
    unfolding next_loop
    next_last h = rw (h, next_loop)

    pub next_inner :
        (h : Handler) (e : Option GoError) (c' : Context Value)
        → (c.index + 1 == length c.handlers) ≡ false
        → ltb (c.index + 1) (length c.handlers) ≡ true
        → get_elem? c.handlers (c.index + 1) ≡ some h
        → run_action x (next_loop x fuel mt) (h c.req) (record c { index = c.index + 1 })
          ≡ some (e, c')
        → next_loop x (suc fuel) mt c ≡ some (none, respond x (e, c'))
    unfolding next_loop
    next_inner h e c' more below found runs = rw (more, below, next_loop) (rw found (rw runs))

    pub next_past :
        (c.index + 1 == length c.handlers) ≡ false
        → ltb (c.index + 1) (length c.handlers) ≡ false
        → next_loop x (suc fuel) mt c ≡ some (none, c)
    unfolding next_loop
    next_past more above = rw (more, above, next_loop)

  -- With as many rounds as there are handlers above the index, `Next` returns.
  pub next_loop-Returns :
      (fuel : ℕ) (mt : Method Value) (c : Context Value)
      → 0 < fuel
      → length c.handlers ≤ c.index + fuel
      → Returns c (next_loop x fuel mt c)
  next_loop-Returns zero mt c pos enough = absurd (omega arith)
  next_loop-Returns (suc fuel) mt c pos enough =
      elim (Bool-cases (c.index + 1 == length c.handlers)) [
        | inl last ↦
            let kept = serve_keeps mt c in
            let kept' = respond_keeps (serve x mt c).0 (serve x mt c).1 in
            (
              none,
              respond x (serve x mt c),
              next_last fuel mt c last,
              kept'.0 ∙ kept.0,
              omega arith,
            )
        | inr more ↦ elim (Bool-cases (ltb (c.index + 1) (length c.handlers))) [
          | inl below ↦
              let (h, found) = get_elem?-some c.handlers (c.index + 1) (ground arith) in
              let (e, c', runs, kept, up) =
                run_action-Returns (next_loop x fuel mt) c.handlers (c.index + 1)
                  (λ d same low.
                    next_loop-Returns fuel mt d (ground arith)
                      (omega (arith, ap {B = ℕ} length same)))
                  (h c.req) (record c { index = c.index + 1 }) refl (omega arith) in
              let kept' = respond_keeps e c' in
              (
                none,
                respond x (e, c'),
                next_inner fuel mt c h e c' more below found runs,
                kept'.0 ∙ kept,
                omega arith,
              )
          | inr above ↦ (none, c, next_past fuel mt c more above, refl, omega arith)
        ]
      ]
