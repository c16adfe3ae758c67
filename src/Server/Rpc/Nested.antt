-- ===== src/Server/Rpc/Nested.antt =====
-- The chain of handlers on a context with the index 0, against a chain without an index: each
-- handler is called with a `Next` that is the rest of the chain.
use kuja.Prelude.{
  ℕ, zero, suc, ◌+◌, ◌<◌, ◌≡◌, refl, sym, ap, ◌∙◌, arith, ltb, ◌==◌, true, false, Option, none,
  some, List, [], ◌∷◌, ◌++◌, All, length, length-append, get_elem?, get_elem?-append,
}
use mathlib.Core.List.{append_assoc}
use kuja.Server.Rpc.{
  GoError, Externals, Method, Action, done, next, call, look, assign, Handler, Context,
}
use kuja.Server.Rpc.Serve.{
  serve, respond, respond_run, returns_nil, run_action, next_loop, Run, emit,
}
use kuja.Server.Rpc.Http.{run_service}
use kuja.Server.Rpc.Chain.{next_last}

-- A body that does not call `Next`, and one that calls it once at most.
abbrev pub Quiet : Action → Type 0
Quiet (done e) = Unit
Quiet (next k) = ⊥
Quiet (call w a) = Quiet a
Quiet (look k) = (v : _) → Quiet (k v)
Quiet (assign v a) = Quiet a

abbrev pub Once : Action → Type 0
Once (done e) = Unit
Once (next k) = (e : Option GoError) → Quiet (k e)
Once (call w a) = Once a
Once (look k) = (v : _) → Once (k v)
Once (assign v a) = Once a

abbrev pub OnceHandler : Handler → Type 0
OnceHandler h = (req : _) → Once (h req)

module _ (x : Externals) where
  open x use {Value}

  -- `Next` in front of the handlers that are left. It counts them, for the index that is put back.
  unfoldable pub nested : Method Value → List Handler → Run x
  nested mt [] c = some (none, respond x (serve x mt c))
  nested mt (h ∷ hs) c =
      returns_nil x
        (respond_run x (run_action x (nested mt hs) (h c.req) (record c { index = c.index + 1 })))

  abbrev pub nested_service : Method Value → List Handler → Context Value → Option (Context Value)
  nested_service mt [] c = some (respond x (serve x mt c))
  nested_service mt (h ∷ hs) c = respond_run x (run_action x (nested mt hs) (h c.req) c)

  run_action-Quiet :
      (nx nx' : Run x) (a : Action) (c : Context Value)
      → Quiet a
      → run_action x nx a c ≡ run_action x nx' a c
  unfolding run_action
  run_action-Quiet nx nx' (done e) c q = refl
  run_action-Quiet nx nx' (next k) c q = absurd q
  run_action-Quiet nx nx' (call w a) c q = run_action-Quiet nx nx' a (emit x (w ∷ []) c) q
  run_action-Quiet nx nx' (look k) c q = run_action-Quiet nx nx' (k c.view) c (q c.view)
  run_action-Quiet nx nx' (assign v a) c q = run_action-Quiet nx nx' a (record c { view = v }) q

  after_next :
      Run x
      → (Option GoError → Action)
      → Option (Option GoError × Context Value)
      → Option (Option GoError × Context Value)
  after_next nx k none = none
  after_next nx k (some (e, c)) = run_action x nx (k e) c

  run_action-after_next :
      (nx : Run x) (k : Option GoError → Action) (c : Context Value)
      → run_action x nx (next k) c ≡ after_next nx k (nx c)
  unfolding run_action after_next
  run_action-after_next nx k c = elim (nx c) [ none ↦ refl | some r ↦ refl ]

  after_next-Quiet :
      (nx nx' : Run x) (k : Option GoError → Action) (r : Option (Option GoError × Context Value))
      → ((e : Option GoError) → Quiet (k e))
      → after_next nx k r ≡ after_next nx' k r
  unfolding after_next
  after_next-Quiet nx nx' k none q = refl
  after_next-Quiet nx nx' k (some (e, c)) q = run_action-Quiet nx nx' (k e) c (q e)

  -- The handlers and the index are those of the start until `Next` is called.
  run_action-Once :
      (nx nx' : Run x) (hs : List Handler) (i : ℕ)
      → ((d : Context Value) → d.handlers ≡ hs → d.index ≡ i → nx d ≡ nx' d)
      → (a : Action) (c : Context Value) → Once a
      → c.handlers ≡ hs
      → c.index ≡ i
      → run_action x nx a c ≡ run_action x nx' a c
  unfolding run_action
  run_action-Once nx nx' hs i same (done e) c o e1 e2 = refl
  run_action-Once nx nx' hs i same (next k) c o e1 e2 =
      run_action-after_next nx k c
      ∙ ap (after_next nx k) (same c e1 e2)
      ∙ after_next-Quiet nx nx' k (nx' c) o
      ∙ sym (run_action-after_next nx' k c)
  run_action-Once nx nx' hs i same (call w a) c o e1 e2 =
      run_action-Once nx nx' hs i same a (emit x (w ∷ []) c) o e1 e2
  run_action-Once nx nx' hs i same (look k) c o e1 e2 =
      run_action-Once nx nx' hs i same (k c.view) c (o c.view) e1 e2
  run_action-Once nx nx' hs i same (assign v a) c o e1 e2 =
      run_action-Once nx nx' hs i same a (record c { view = v }) o e1 e2

  next_more :
      (fuel : ℕ) (mt : Method Value) (c : Context Value) (h : Handler)
      → (c.index + 1 == length c.handlers) ≡ false
      → ltb (c.index + 1) (length c.handlers) ≡ true
      → get_elem? c.handlers (c.index + 1) ≡ some h
      → next_loop x (suc fuel) mt c
        ≡ returns_nil x (
            respond_run x
              (run_action x (next_loop x fuel mt) (h c.req) (record c { index = c.index + 1 })))
  unfolding next_loop
  next_more fuel mt c h more below found = rw (more, below, next_loop) (rw found refl)

  next_loop-nested :
      (fuel : ℕ) (mt : Method Value) (before rest : List Handler) (c : Context Value)
      → c.handlers ≡ before ++ rest
      → length before ≡ c.index + 1
      → length rest < fuel
      → All OnceHandler rest
      → next_loop x fuel mt c ≡ nested mt rest c
  unfolding nested
  next_loop-nested zero mt before rest c same at enough all = absurd (omega arith)
  next_loop-nested (suc fuel) mt before [] c same at enough all =
      let n = ap {B = ℕ} length same ∙ length-append before [] in
      next_last x fuel mt c (ground (arith, n))
  next_loop-nested (suc fuel) mt before (h ∷ hs) c same at enough (once, all) =
      let n = ap {B = ℕ} length same ∙ length-append before (h ∷ hs) in
      next_more fuel mt c h (ground (arith, n)) (ground (arith, n)) (
        ap (λ l. get_elem? l (c.index + 1)) same
        ∙ ap (get_elem? (before ++ (h ∷ hs))) (sym at)
        ∙ get_elem?-append before hs h)
      ∙ ap (λ r. returns_nil x (respond_run x r))
          (run_action-Once (next_loop x fuel mt) (nested mt hs) c.handlers (c.index + 1)
            (λ d e1 e2.
              next_loop-nested fuel mt (before ++ (h ∷ [])) hs d
                (e1 ∙ same ∙ sym (append_assoc before (h ∷ []) hs))
                (omega (arith, length-append before (h ∷ []))) (omega arith) all)
            (h c.req) (record c { index = c.index + 1 }) (once c.req) refl refl)

  -- On a context with the index 0, handlers that call `Next` once at most run one inside the other,
  -- the first outermost and the service's method innermost.
  pub run_service-nested_service :
      (mt : Method Value) (hs : List Handler) (c : Context Value)
      → c.handlers ≡ hs
      → c.index ≡ 0
      → All OnceHandler hs
      → run_service x mt hs c ≡ nested_service mt hs c
  unfolding run_service
  run_service-nested_service mt [] c same at all = refl
  run_service-nested_service mt (h ∷ hs) c same at (once, all) = ap (respond_run x) (
      run_action-Once (next_loop x (suc (length hs)) mt) (nested mt hs) c.handlers c.index
        (λ d e1 e2.
          next_loop-nested (suc (length hs)) mt (h ∷ []) hs d (e1 ∙ same) (omega arith)
            (omega arith) all)
        (h c.req) c (once c.req) refl refl)
