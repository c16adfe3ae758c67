-- ===== src/Client/Async/Responses.antt =====
-- The responses that `AsyncRequests` of client/client.go collects, however its goroutines run.
use mathlib.Core.Path.{subst}
use mathlib.Core.List.{append-nil, Perm, map-append, perm_middle}
use mathlib.Core.List.Perm
use kuja.Prelude.{
  length-append, arith, ◌≤◌, ◌<◌, ◌+◌, ◌≡◌, refl, sym, ap, ◌∙◌, ℕ, Bool, Option, some, List, [],
  ◌∷◌, ◌++◌, map, Str, length, length-map, length-perm, All,
}
use kuja.Prelude.Dict.{Dict}
use kuja.Client.Address.{Addressed}
use kuja.Client.Request.{ClientEncoder, ClientExternals, HttpOutcome, Sent}
use kuja.Client.Async.{async_requests, collected_for, async_requests-collects}
use kuja.Client.Async.Goroutines.{
  AsyncRequest, AsyncResponse, Phase, starts, configures, calls, ended, Gathering, response_of,
  AsyncStep, stops_early, finds, misses, writes, sends, takes, Reach, spawn, spawned, step,
}
use kuja.Client.Async.Alike.{request_run, run_of-Alike}

module _ (x : ClientExternals) (enc : ClientEncoder x.Value) (defaults : Dict Str) (has_json : Bool)
    (address_of : Str → Str → Addressed)
    (transport : AsyncRequest x.Value → Sent → HttpOutcome) where
  open x use {Value, bad_request}

  abbrev Goroutine : Type 0
  Goroutine = AsyncRequest Value × Phase

  -- The response of a request, if it returns.
  abbrev pub response : AsyncRequest Value → Option AsyncResponse
  response a = response_of (request_run x enc defaults has_json address_of transport [] a).answer

  abbrev ended_responses : List Goroutine → List (Option AsyncResponse)
  ended_responses [] = []
  ended_responses ((a, starts) ∷ gs) = ended_responses gs
  ended_responses ((a, configures) ∷ gs) = ended_responses gs
  ended_responses ((a, calls) ∷ gs) = ended_responses gs
  ended_responses ((a, ended) ∷ gs) = response a ∷ ended_responses gs

  ended_responses-append :
      (gs hs : List Goroutine)
      → ended_responses (gs ++ hs) ≡ ended_responses gs ++ ended_responses hs
  ended_responses-append [] hs = refl
  ended_responses-append ((a, starts) ∷ gs) hs = ended_responses-append gs hs
  ended_responses-append ((a, configures) ∷ gs) hs = ended_responses-append gs hs
  ended_responses-append ((a, calls) ∷ gs) hs = ended_responses-append gs hs
  ended_responses-append ((a, ended) ∷ gs) hs =
      ap (λ t. response a ∷ t) (ended_responses-append gs hs)

  ended_responses-middle :
      (before after : List Goroutine) (a : AsyncRequest Value) (p q : Phase)
      → ended_responses ((a, p) ∷ after) ≡ ended_responses ((a, q) ∷ after)
      → ended_responses (before ++ ((a, p) ∷ after)) ≡ ended_responses (before ++ ((a, q) ∷ after))
  ended_responses-middle before after a p q same =
      ended_responses-append before ((a, p) ∷ after)
      ∙ ap (λ t. ended_responses before ++ t) same
      ∙ sym (ended_responses-append before ((a, q) ∷ after))

  requests_of-middle :
      (before after : List Goroutine) (a : AsyncRequest Value) (p q : Phase)
      → map (λ g. g.0) (before ++ ((a, p) ∷ after)) ≡ map (λ g. g.0) (before ++ ((a, q) ∷ after))
  requests_of-middle [] after a p q = refl
  requests_of-middle (g ∷ before) after a p q =
      ap (λ t. g.0 ∷ t) (requests_of-middle before after a p q)

  -- The channel holds the responses of the goroutines that have ended.
  abbrev Gathers : List (AsyncRequest Value) → Gathering Value → Type 0
  Gathers requests s =
      (map (λ g. g.0) s.goroutines ≡ requests)
      × Perm (map some s.channel) (ended_responses s.goroutines)

  send-perm :
      (channel : List AsyncResponse) (before after : List Goroutine) (a : AsyncRequest Value)
      (r : AsyncResponse)
      → Perm (map some channel) (ended_responses (before ++ ((a, calls) ∷ after)))
      → response a ≡ some r
      → Perm (map some (channel ++ (r ∷ []))) (ended_responses (before ++ ((a, ended) ∷ after)))
  send-perm channel before after a r perm e =
      let front : Perm (map some (channel ++ (r ∷ []))) (some r ∷ map some channel) =
        rw (map-append some channel (r ∷ [])) (
          subst (λ t. Perm (map some channel ++ (some r ∷ [])) (some r ∷ t))
            (append-nil (map some channel)) (perm_middle (map some channel) [])) in
      let back : Perm (some r ∷ ended_responses (before ++ ((a, calls) ∷ after)))
          (ended_responses (before ++ ((a, ended) ∷ after))) =
        rw
          (
            ended_responses-append before ((a, calls) ∷ after),
            ended_responses-append before ((a, ended) ∷ after),
            e,
          )
          (Perm.symm (perm_middle (ended_responses before) (ended_responses after))) in
      Perm.trans front (Perm.trans (Perm.cons (some r) perm) back)

  -- A step that only moves one goroutine from a phase to another, and does not end it.
  Gathers-moved :
      (requests : List (AsyncRequest Value)) (s : Gathering Value) (before after : List Goroutine)
      (a : AsyncRequest Value) (p q : Phase)
      → ended_responses ((a, p) ∷ after) ≡ ended_responses ((a, q) ∷ after)
      → s.goroutines ≡ before ++ ((a, p) ∷ after)
      → Gathers requests s
      → Gathers requests (record s { goroutines = before ++ ((a, q) ∷ after) })
  Gathers-moved requests s before after a p q same at (is, perm) = (
    sym (requests_of-middle before after a p q) ∙ ap (map (λ g. g.0)) (sym at) ∙ is,
    subst (Perm (map some s.channel))
        (ap ended_responses at ∙ ended_responses-middle before after a p q same) perm,
  )

  step-Gathers :
      (requests : List (AsyncRequest Value)) (s t : Gathering Value)
      → AsyncStep x enc defaults has_json address_of transport s t
      → Gathers requests s
      → Gathers requests t
  step-Gathers requests s _ (stops_early before after a at e) g =
      Gathers-moved requests s before after a starts calls refl at g
  step-Gathers requests s _ (finds before after a sent at e is) g =
      Gathers-moved requests s before after a starts calls refl at g
  step-Gathers requests s _ (misses before after a sent at e is) g =
      Gathers-moved requests s before after a starts configures refl at g
  step-Gathers requests s _ (writes before after a at) g =
      Gathers-moved requests s before after a configures calls refl at g
  step-Gathers requests s _ (takes more few) g = g
  step-Gathers requests s _ (sends before after a r at e room) (is, perm) = (
    sym (requests_of-middle before after a calls ended) ∙ ap (map (λ g. g.0)) (sym at) ∙ is,
    send-perm s.channel before after a r
        (subst (λ gs. Perm (map some s.channel) (ended_responses gs)) at perm)
        (ap response_of
            (run_of-Alike x enc defaults has_json address_of transport [] s.configured a).1
          ∙ e),
  )

  step-capacity :
      (s t : Gathering Value)
      → AsyncStep x enc defaults has_json address_of transport s t
      → t.capacity ≡ s.capacity
  step-capacity s _ (stops_early before after a at e) = refl
  step-capacity s _ (finds before after a sent at e is) = refl
  step-capacity s _ (misses before after a sent at e is) = refl
  step-capacity s _ (writes before after a at) = refl
  step-capacity s _ (sends before after a r at e room) = refl
  step-capacity s _ (takes more few) = refl

  spawned-Gathers :
      (requests : List (AsyncRequest Value)) (configured : List Str)
      → Gathers requests (spawned x enc defaults has_json address_of transport requests configured)
  spawned-Gathers [] configured = (refl, Perm.rfl)
  spawned-Gathers (a ∷ requests) configured =
      let (is, perm) = spawned-Gathers requests configured in (ap (λ t. a ∷ t) is, perm)

  Reach-Gathers :
      (requests : List (AsyncRequest Value)) (configured : List Str) (n : ℕ) (s : Gathering Value)
      → Reach x enc defaults has_json address_of transport requests configured n s
      → Gathers requests s
  Reach-Gathers requests configured _ _ spawn = spawned-Gathers requests configured
  Reach-Gathers requests configured _ t (step {n = n} {s = s} before move) =
      step-Gathers requests s t move (Reach-Gathers requests configured n s before)

  pub Reach-requests :
      (requests : List (AsyncRequest Value)) (configured : List Str) (n : ℕ) (s : Gathering Value)
      → Reach x enc defaults has_json address_of transport requests configured n s
      → map (λ g. g.0) s.goroutines ≡ requests
  Reach-requests requests configured n s reach = (Reach-Gathers requests configured n s reach).0

  Reach-capacity :
      (requests : List (AsyncRequest Value)) (configured : List Str) (n : ℕ) (s : Gathering Value)
      → Reach x enc defaults has_json address_of transport requests configured n s
      → s.capacity ≡ length requests
  Reach-capacity requests configured _ _ spawn = refl
  Reach-capacity requests configured _ t (step {n = n} {s = s} before move) =
      step-capacity s t move ∙ Reach-capacity requests configured n s before

  ended_responses-short : (gs : List Goroutine) → length (ended_responses gs) ≤ length gs
  ended_responses-short [] = omega arith
  ended_responses-short ((a, starts) ∷ gs) = omega (arith, ended_responses-short gs)
  ended_responses-short ((a, configures) ∷ gs) = omega (arith, ended_responses-short gs)
  ended_responses-short ((a, calls) ∷ gs) = omega (arith, ended_responses-short gs)
  ended_responses-short ((a, ended) ∷ gs) = omega (arith, ended_responses-short gs)

  -- While a goroutine is to send its response, the buffer of the channel is not full.
  pub Reach-room :
      (requests : List (AsyncRequest Value)) (configured : List Str) (n : ℕ) (s : Gathering Value)
      (before after : List Goroutine) (a : AsyncRequest Value)
      → Reach x enc defaults has_json address_of transport requests configured n s
      → s.goroutines ≡ before ++ ((a, calls) ∷ after)
      → length s.channel < s.taken + s.capacity
  Reach-room requests configured n s before after a reach at =
      let (is, perm) = Reach-Gathers requests configured n s reach in
      let sent = sym (length-map some s.channel) ∙ length-perm perm in
      let parts =
        ap {B = ℕ} (λ gs. length (ended_responses gs)) at
        ∙ ap {B = ℕ} length (ended_responses-append before ((a, calls) ∷ after))
        ∙ length-append (ended_responses before) (ended_responses after) in
      let whole = ap {B = ℕ} length at ∙ length-append before ((a, calls) ∷ after) in
      let same = sym (length-map (λ g. g.0) s.goroutines) ∙ ap {B = ℕ} length is in
      omega (
        arith,
        sent,
        parts,
        whole,
        same,
        Reach-capacity requests configured n s reach,
        ended_responses-short before,
        ended_responses-short after,
      )

  ended_responses-All :
      (gs : List Goroutine)
      → All (λ g. g.1 ≡ ended) gs
      → ended_responses gs ≡ map response (map (λ g. g.0) gs)
  ended_responses-All [] all = refl
  ended_responses-All ((a, starts) ∷ gs) (e, all) = absurd cc
  ended_responses-All ((a, configures) ∷ gs) (e, all) = absurd cc
  ended_responses-All ((a, calls) ∷ gs) (e, all) = absurd cc
  ended_responses-All ((a, ended) ∷ gs) (e, all) =
      ap (λ t. response a ∷ t) (ended_responses-All gs all)

  -- Where the goroutines of a call have all sent their responses, in whatever order they ran,
  -- `AsyncRequests` returns what came on the channel: one response for each request, in any order.
  -- Without a request it blocks for ever.
  pub Reach-async_requests :
      (requests : List (AsyncRequest Value)) (configured : List Str) (n : ℕ) (s : Gathering Value)
      → Reach x enc defaults has_json address_of transport requests configured n s
      → All (λ g. g.1 ≡ ended) s.goroutines
      → (async_requests (length requests) s.channel ≡ collected_for requests s.channel)
        × Perm (map some s.channel) (map response requests)
  Reach-async_requests requests configured n s reach all =
      let (is, gathered) = Reach-Gathers requests configured n s reach in
      let perm : Perm (map some s.channel) (map response requests) =
        subst (Perm (map some s.channel))
          (ended_responses-All s.goroutines all ∙ ap (map response) is) gathered in
      let same : length s.channel ≡ length requests =
        sym (length-map some s.channel) ∙ length-perm perm ∙ length-map response requests in
      (async_requests-collects requests s.channel same, perm)
