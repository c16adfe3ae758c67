-- ===== src/Client/Async/Progress.antt =====
-- The goroutines of `AsyncRequests` of client/client.go come to an end, however they run.
use mathlib.Core.Path.{subst}
use kuja.Prelude.{
  ◌≡◌, ◌<◌, ltb, ltb→lt, length-map, length-perm, length-append, ◌≢◌, ◌⊎◌, inl, inr, refl, sym, ap,
  ◌∙◌, arith, ℕ, suc, ◌+◌, ◌*◌, ◌≤◌, Bool, Bool-cases, Option, none, some, List, [], ◌∷◌, ◌++◌, map,
  Str, length, All, All-map, All-middle,
}
use kuja.Prelude.Dict.{Dict}
use kuja.Client.Address.{Addressed}
use kuja.Client.Request.{ClientEncoder, ClientExternals, HttpOutcome, Sent, is_configured}
use kuja.Client.Async.Goroutines.{
  AsyncRequest, AsyncResponse, Phase, starts, configures, calls, ended, Gathering, response_of,
  run_of, AsyncStep, stops_early, finds, misses, writes, sends, takes, Reach, spawn, step,
}
use kuja.Client.Async.Alike.{run_of-Alike}
use kuja.Client.Async.Responses.{response, Reach-requests, Reach-room, Reach-async_requests}

abbrev steps_left : Phase → ℕ
steps_left starts = 3
steps_left configures = 2
steps_left calls = 1
steps_left ended = 0

module _ {Value : Type 0} where
  abbrev all_left : List (AsyncRequest Value × Phase) → ℕ
  all_left [] = 0
  all_left (g ∷ gs) = steps_left g.1 + all_left gs

  all_left-middle :
      (before after : List (AsyncRequest Value × Phase)) (a : AsyncRequest Value) (p : Phase)
      → all_left (before ++ ((a, p) ∷ after)) ≡ all_left before + (steps_left p + all_left after)
  all_left-middle [] after a p = omega arith
  all_left-middle (g ∷ before) after a p = omega (arith, all_left-middle before after a p)

  -- A goroutine that moves on has a step less to take at least.
  all_left-moved :
      (n k : ℕ) (gs before after : List (AsyncRequest Value × Phase)) (a : AsyncRequest Value)
      (p q : Phase)
      → gs ≡ before ++ ((a, p) ∷ after)
      → suc (steps_left q) ≤ steps_left p
      → n + all_left gs ≤ k
      → suc n + all_left (before ++ ((a, q) ∷ after)) ≤ k
  all_left-moved n k gs before after a p q at less bound =
      let was = ap {B = ℕ} all_left at ∙ all_left-middle before after a p in
      let now = all_left-middle before after a q in omega arith

  all_left-spawned :
      (requests : List (AsyncRequest Value))
      → all_left (map (λ a. (a, starts)) requests) ≡ 3 * length requests
  all_left-spawned [] = refl
  all_left-spawned (a ∷ requests) = omega (arith, all_left-spawned requests)

  goroutines-moved :
      (gs before after : List (AsyncRequest Value × Phase)) (a : AsyncRequest Value) (p q : Phase)
      → gs ≡ before ++ ((a, p) ∷ after)
      → length gs ≡ length (before ++ ((a, q) ∷ after))
  goroutines-moved gs before after a p q at = omega (
    arith,
    ap {B = ℕ} length at,
    length-append before ((a, p) ∷ after),
    length-append before ((a, q) ∷ after),
  )

  -- All goroutines have ended, or one has not.
  ended-cases :
      (gs : List (AsyncRequest Value × Phase))
      → All (λ g. g.1 ≡ ended) gs
        ⊎ ((before after : List (AsyncRequest Value × Phase)) × (a : AsyncRequest Value)
            × (p : Phase) × (gs ≡ before ++ ((a, p) ∷ after))
            × (p ≢ ended))
  ended-cases [] = inl tt
  ended-cases ((a, starts) ∷ gs) = inr ([], gs, a, starts, refl, λ e. absurd cc)
  ended-cases ((a, configures) ∷ gs) = inr ([], gs, a, configures, refl, λ e. absurd cc)
  ended-cases ((a, calls) ∷ gs) = inr ([], gs, a, calls, refl, λ e. absurd cc)
  ended-cases ((a, ended) ∷ gs) = elim (ended-cases gs) [
    | inl all ↦ inl (refl, all)
    | inr (before, after, b, p, at, open_still) ↦
        inr ((a, ended) ∷ before, after, b, p, ap (λ t. (a, ended) ∷ t) at, open_still)
  ]

module _ (x : ClientExternals) (enc : ClientEncoder x.Value) (defaults : Dict Str) (has_json : Bool)
    (address_of : Str → Str → Addressed)
    (transport : AsyncRequest x.Value → Sent → HttpOutcome) where
  open x use {Value}

  abbrev Step : Gathering Value → Gathering Value → Type 0
  Step = AsyncStep x enc defaults has_json address_of transport

  -- `Request` returns and does not panic.
  abbrev pub Returns : AsyncRequest Value → Type 0
  Returns a =
      (r : AsyncResponse) × (response x enc defaults has_json address_of transport a ≡ some r)

  -- A step takes from what the goroutines have left, or the loop has taken one response more.
  step-left :
      (n k : ℕ) (s t : Gathering Value)
      → Step s t
      → n + all_left s.goroutines ≤ k + s.taken
      → suc n + all_left t.goroutines ≤ k + t.taken
  step-left n k s _ (stops_early before after a at e) bound =
      all_left-moved n (k + s.taken) s.goroutines before after a starts calls at (omega arith) bound
  step-left n k s _ (finds before after a sent at e is) bound =
      all_left-moved n (k + s.taken) s.goroutines before after a starts calls at (omega arith) bound
  step-left n k s _ (misses before after a sent at e is) bound =
      all_left-moved n (k + s.taken) s.goroutines before after a starts configures at (omega arith)
        bound
  step-left n k s _ (writes before after a at) bound =
      all_left-moved n (k + s.taken) s.goroutines before after a configures calls at (omega arith)
        bound
  step-left n k s _ (sends before after a r at e room) bound =
      all_left-moved n (k + s.taken) s.goroutines before after a calls ended at (omega arith) bound
  step-left n k s _ (takes more few) bound = omega arith

  -- The goroutines stay as many, and the loop takes no more responses than there are goroutines.
  step-taken :
      (s t : Gathering Value)
      → Step s t
      → s.taken ≤ length s.goroutines
      → t.taken ≤ length t.goroutines
  step-taken s _ (stops_early before after a at e) few =
      subst (λ (k : ℕ). s.taken ≤ k) (goroutines-moved s.goroutines before after a starts calls at)
        few
  step-taken s _ (finds before after a sent at e is) few =
      subst (λ (k : ℕ). s.taken ≤ k) (goroutines-moved s.goroutines before after a starts calls at)
        few
  step-taken s _ (misses before after a sent at e is) few =
      subst (λ (k : ℕ). s.taken ≤ k)
        (goroutines-moved s.goroutines before after a starts configures at) few
  step-taken s _ (writes before after a at) few =
      subst (λ (k : ℕ). s.taken ≤ k)
        (goroutines-moved s.goroutines before after a configures calls at) few
  step-taken s _ (sends before after a r at e room) few =
      subst (λ (k : ℕ). s.taken ≤ k) (goroutines-moved s.goroutines before after a calls ended at)
        few
  step-taken s _ (takes more less) few = omega arith

  Reach-left :
      (requests : List (AsyncRequest Value)) (configured : List Str) (n : ℕ) (s : Gathering Value)
      → Reach x enc defaults has_json address_of transport requests configured n s
      → (n + all_left s.goroutines ≤ 3 * length requests + s.taken)
        × (s.taken ≤ length s.goroutines)
  Reach-left requests configured _ _ spawn = (omega (arith, all_left-spawned requests), omega arith)
  Reach-left requests configured _ t (step {n = n} {s = s} before move) =
      let (bound, few) = Reach-left requests configured n s before in
      (step-left n (3 * length requests) s t move bound, step-taken s t move few)

  begun-moves :
      (s : Gathering Value) (before after : List (AsyncRequest Value × Phase))
      (a : AsyncRequest Value) (o : Option Sent)
      → s.goroutines ≡ before ++ ((a, starts) ∷ after)
      → (run_of x enc defaults has_json address_of transport s.configured a).sent ≡ o
      → (t : Gathering Value) × Step s t
  begun-moves s before after a none at e = (_, stops_early before after a at e)
  begun-moves s before after a (some sent) at e =
      elim (Bool-cases (is_configured x a.service s.configured)) [
        | inl is ↦ (_, finds before after a sent at e is)
        | inr is ↦ (_, misses before after a sent at e is)
      ]

  open-moves :
      (s : Gathering Value) (before after : List (AsyncRequest Value × Phase))
      (a : AsyncRequest Value) (p : Phase)
      → s.goroutines ≡ before ++ ((a, p) ∷ after)
      → p ≢ ended
      → Returns a
      → (p ≡ calls → length s.channel < s.taken + s.capacity)
      → (t : Gathering Value) × Step s t
  open-moves s before after a starts at ne returned room =
      begun-moves s before after a
        (run_of x enc defaults has_json address_of transport s.configured a).sent at refl
  open-moves s before after a configures at ne returned room = (_, writes before after a at)
  open-moves s before after a calls at ne (r, e) room = (
    _,
    sends before after a r at
        (ap response_of
            (run_of-Alike x enc defaults has_json address_of transport s.configured [] a).1
          ∙ e)
        (room refl),
  )
  open-moves s before after a ended at ne returned room = absurd (ne refl)

  -- All responses have been sent: the loop has taken them all, or it can take one.
  All-ended :
      (requests : List (AsyncRequest Value)) (configured : List Str) (n : ℕ) (s : Gathering Value)
      → Reach x enc defaults has_json address_of transport requests configured n s
      → All (λ g. g.1 ≡ ended) s.goroutines
      → s.taken ≤ length requests
      → (s.taken ≡ length requests) ⊎ ((t : Gathering Value) × Step s t)
  All-ended requests configured n s reach all few =
      let (answered, perm) =
        Reach-async_requests x enc defaults has_json address_of transport requests configured n s
          reach all in
      let sent =
        sym (length-map some s.channel)
        ∙ length-perm perm
        ∙ length-map (response x enc defaults has_json address_of transport) requests in
      let is =
        Reach-requests x enc defaults has_json address_of transport requests configured n s reach in
      let same = sym (length-map (λ g. g.0) s.goroutines) ∙ ap {B = ℕ} length is in
      elim (Bool-cases (ltb s.taken (length requests))) [
        | inl less ↦
            let below = ltb→lt s.taken (length requests) less in
            inr (_, takes (omega (arith, sent)) (omega (arith, same)))
        | inr done ↦ inl (ground (arith, done))
      ]

  -- A call whose requests do not panic takes at most four steps for each request, and it is never
  -- stuck: until each goroutine has sent its response and the loop has received them all, a goroutine
  -- or the loop can take a step.
  pub Reach-Progresses :
      (requests : List (AsyncRequest Value)) (configured : List Str) (n : ℕ) (s : Gathering Value)
      → All Returns requests
      → Reach x enc defaults has_json address_of transport requests configured n s
      → (n ≤ 4 * length requests)
        × ((All (λ g. g.1 ≡ ended) s.goroutines × (s.taken ≡ length requests))
            ⊎ ((t : Gathering Value) × Step s t))
  Reach-Progresses requests configured n s returned reach =
      let (bound, few) = Reach-left requests configured n s reach in
      let is =
        Reach-requests x enc defaults has_json address_of transport requests configured n s reach in
      let same = sym (length-map (λ g. g.0) s.goroutines) ∙ ap {B = ℕ} length is in
      let each : All (λ g. Returns g.0) s.goroutines =
        All-map Returns (λ g. g.0) s.goroutines (subst (All Returns) (sym is) returned) in
      (
        omega (arith, same),
        elim (ended-cases s.goroutines) [
          | inl all ↦ elim (All-ended requests configured n s reach all (omega (arith, same))) [
            | inl taken ↦ inl (all, taken)
            | inr moves ↦ inr moves
          ]
          | inr (before, after, a, p, at, ne) ↦
              let one =
                (All-middle (λ g. Returns g.0) before after (a, p)
                  (subst (All (λ g. Returns g.0)) at each)).0 in
              inr (
                open-moves s before after a p at ne one (λ e.
                  Reach-room x enc defaults has_json address_of transport requests configured n s
                    before after a reach (at ∙ ap (λ q. before ++ ((a, q) ∷ after)) e)))
        ],
      )
