-- ===== src/Server/Rpc/Pool.antt =====
-- server.go: the pool of contexts while requests are served. `Get` gives any context that was put
-- back, or a new one, and the pool may drop contexts: this is what sync.Pool documents.
pub mod Single
pub mod Bypass
pub mod Leak
mod Tests
use kuja.Prelude.{◌≡◌, refl, none, some, List, [], ◌∷◌, ◌++◌}
use kuja.Server.Rpc.{Externals, Request, Context}
use kuja.Server.Rpc.Http.{Server, Exchange, answered, panics, stuck, serve_http}
use kuja.Server.Rpc.Fresh.{new_context}

-- The contexts that were put back, and the requests that have a context and are not answered yet.
pub record Pool (Value : Type 0) : Type 0 where
  pub idle : List (Context Value)
  pub running : List (Context Value × Request)

abbrev pub empty_pool : {Value : Type 0} → Pool Value
empty_pool = record { idle = []; running = [] }

-- `server.pool.Put`, where `ServeHTTP` comes to it.
abbrev pub put : {Value : Type 0} → Exchange Value → List (Context Value) → List (Context Value)
put (answered cs none) idle = idle
put (answered cs (some c)) idle = c ∷ idle
put panics idle = idle
put stuck idle = idle

module _ (x : Externals) (server : Server x.Value) (nil : Request) where
  open x use {Value}

  -- A request begins on a new context or on one of the pool, a request ends, or the pool drops a
  -- context.
  pub data PoolStep (p : Pool Value) : Pool Value → Type 0 where
    begins_new :
        (req : Request) → PoolStep p (record p { running = (new_context nil, req) ∷ p.running })
    begins :
        (before after : List (Context Value)) (c : Context Value) (req : Request)
        → p.idle ≡ before ++ (c ∷ after)
        → PoolStep p (record { idle = before ++ after; running = (c, req) ∷ p.running })
    ends :
        (before after : List (Context Value × Request)) (c : Context Value) (req : Request)
        → p.running ≡ before ++ ((c, req) ∷ after)
        → PoolStep p
            (record { idle = put (serve_http x server c req) p.idle; running = before ++ after })
    drops :
        (before after : List (Context Value)) (c : Context Value)
        → p.idle ≡ before ++ (c ∷ after)
        → PoolStep p (record p { idle = before ++ after })

  pub data Reach : Pool Value → Type 0 where
    start : Reach empty_pool
    later : {p q : Pool Value} → Reach p → PoolStep p q → Reach q
