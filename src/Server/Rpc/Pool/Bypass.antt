-- ===== src/Server/Rpc/Pool/Bypass.antt =====
-- A service with two handlers: a request on the context of an earlier one skips the second.
use kuja.Prelude.{
  ℕ, ◌+◌, ◌≡◌, ◌≢◌, refl, ap, ◌∙◌, arith, none, some, List, [], ◌∷◌, length, Str, codes, All,
}
use kuja.Prelude.Dict.{Dict, lookup, insert}
use kuja.Server.Route.{get_service_method}
use kuja.Server.Rpc.{Externals, Request, Method, done, next, Handler, Context}
use kuja.Server.Rpc.Serve.{serve, respond, respond_run, run_action, next_loop}
use kuja.Server.Rpc.Http.{
  Service, Server, answered, found, run_service, fill_metadata, put_back, serve_http,
}
use kuja.Server.Rpc.Chain.{run_action_next, next_last, next_inner, respond_keeps, serve_keeps}
use kuja.Server.Rpc.Reuse.{pass_through, run_service-last}
use kuja.Server.Rpc.Fresh.{new_context, serve_http-found}
use kuja.Server.Rpc.Pool.{Pool, put, begins_new, begins, ends, Reach, start, later}

module _ (x : Externals) where
  open x use {Value}

  abbrev two_handlers : Handler → List Handler
  two_handlers second = pass_through ∷ second ∷ []

  -- The first request, which the second handler lets pass.
  run_service-two :
      (mt : Method Value) (second : Handler) (c : Context Value)
      → c.handlers ≡ two_handlers second
      → c.index ≡ 0
      → second c.req ≡ next (λ e. done e)
      → run_service x mt (two_handlers second) c
        ≡ some (respond x (serve x mt (record c { index = 1 })))
  unfolding run_service run_action respond
  run_service-two mt second c same at passes =
      let n : length c.handlers ≡ 2 = ap {B = ℕ} length same in
      let up : Context Value = record c { index = c.index + 1 } in
      let end : Context Value = respond x (serve x mt up) in
      let inner : run_action x (next_loop x 1 mt) (second c.req) up ≡ some (none, end) =
        ap (λ a. run_action x (next_loop x 1 mt) a up) passes
        ∙ run_action_next x (next_loop x 1 mt) (λ e. done e) up none end
            (next_last x 0 mt up (ground (arith, n))) in
      let outer : next_loop x 2 mt c ≡ some (none, end) =
        next_inner x 1 mt c second none end (ground (arith, n)) (ground (arith, n))
          (rw (same, at) refl) inner in
      ap (respond_run x) (run_action_next x (next_loop x 2 mt) (λ e. done e) c none end outer)
      ∙ ap (λ i. some (respond x (serve x mt (record c { index = i + 1 })))) at

  -- Each header has a value, as net/http gives them.
  abbrev pub HasValues : Dict (List Str) → Type 0
  HasValues = All (λ h. h.1 ≢ [])

  pub fill_metadata-some :
      (header : Dict (List Str)) (md : Dict Str)
      → HasValues header
      → (md' : Dict Str) × (fill_metadata header md ≡ some md')
  unfolding fill_metadata
  fill_metadata-some [] md all = (md, refl)
  fill_metadata-some ((name, []) ∷ header) md (ne, all) = absurd (ne refl)
  fill_metadata-some ((name, v ∷ vs) ∷ header) md (ne, all) =
      fill_metadata-some header (insert name v md) all

  module _ (server : Server Value) (nil first : Request) (sn mn : Str) (s : Service Value)
      (mt : Method Value) (second : Handler) where
    served_first :
        (md : Dict Str)
        → first.method ≡ codes "POST"
        → get_service_method first.path ≡ (sn, mn)
        → sn ≢ []
        → mn ≢ []
        → fill_metadata first.header [] ≡ some md
        → lookup sn server.service_map ≡ some s
        → lookup mn s.method ≡ some mt
        → s.handlers ≡ two_handlers second
        → second first ≡ next (λ e. done e)
        → (c : Context Value) × (c.index ≡ 1)
          × (serve_http x server (new_context nil) first ≡ answered c.out (some c))
    unfolding new_context
    served_first md post path some_sn some_mn filled known has two passes =
        let ctx : Context Value = found x server (new_context nil) first s mt sn mn md in
        let end = serve x mt (record ctx { index = 1 }) in
        (
          respond x end,
          (respond_keeps x end.0 end.1).1 ∙ (serve_keeps x mt (record ctx { index = 1 })).1,
          serve_http-found x server (new_context nil) first sn mn md s mt post path some_sn some_mn
                filled known has
              ∙ ap (λ hs. put_back x (run_service x mt hs ctx)) two
              ∙ ap (put_back x) (run_service-two mt second ctx two refl passes),
        )

    -- On a server with a service of two handlers, the first of which only calls Next, after one
    -- request that the second handler has let pass, another request for the method can begin on a
    -- context on which the method runs without the second handler, whatever this one does.
    pub Reach-bypass :
        (other : Request)
        → first.method ≡ codes "POST"
        → other.method ≡ codes "POST"
        → get_service_method first.path ≡ (sn, mn)
        → get_service_method other.path ≡ (sn, mn)
        → sn ≢ []
        → mn ≢ []
        → HasValues first.header
        → HasValues other.header
        → lookup sn server.service_map ≡ some s
        → lookup mn s.method ≡ some mt
        → s.handlers ≡ two_handlers second
        → second first ≡ next (λ e. done e)
        → (p : Pool Value) × (c : Context Value) × (md : Dict Str) × Reach x server nil p
          × (p.running ≡ (c, other) ∷ [])
          × (serve_http x server c other
              ≡ put_back x (some (respond x (serve x mt (found x server c other s mt sn mn md)))))
    Reach-bypass other post post' path path' some_sn some_mn headers headers' known has two passes =
        let (md, filled) = fill_metadata-some first.header [] headers in
        let (c, at, served) =
          served_first md post path some_sn some_mn filled known has two passes in
        let (md', filled') = fill_metadata-some other.header c.view.req_metadata headers' in
        let ctx : Context Value = found x server c other s mt sn mn md' in
        (
          record { idle = []; running = (c, other) ∷ [] },
          c,
          md',
          later (later (later start (begins_new first)) (ends [] [] (new_context nil) first refl))
              (begins [] [] c other (ap (λ ex. put ex []) served)),
          refl,
          serve_http-found x server c other sn mn md' s mt post' path' some_sn some_mn filled' known
                has
              ∙ ap (λ hs. put_back x (run_service x mt hs ctx)) two
              ∙ ap (put_back x) (run_service-last x mt (second ∷ []) ctx two at),
        )
