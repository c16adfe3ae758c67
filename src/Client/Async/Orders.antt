-- ===== src/Client/Async/Orders.antt =====
-- The orders in which the responses of `AsyncRequests` of client/client.go can come.
use mathlib.Core.Path.{subst}
use mathlib.Core.List.{append_assoc, append-nil, map-append}
use kuja.Prelude.{
  ◌≡◌, inl, inr, refl, sym, ap, ◌∙◌, ℕ, Bool, Bool-cases, Option, none, some, List, [], ◌∷◌, ◌++◌,
  map, Str, All, All-middle,
}
use kuja.Prelude.Dict.{Dict}
use kuja.Client.Address.{Addressed}
use kuja.Client.Request.{ClientEncoder, ClientExternals, HttpOutcome, Sent, is_configured}
use kuja.Client.Async.Goroutines.{
  AsyncRequest, AsyncResponse, Phase, starts, calls, ended, Gathering, response_of, run_of,
  stops_early, finds, misses, writes, sends, Reach, spawn, step,
}
use kuja.Client.Async.Alike.{run_of-Alike}
use kuja.Client.Async.Responses.{response, Reach-room}
use kuja.Client.Async.Progress.{Returns}
use kuja.Client.Async.Drawn.{
  Drawn, drawn_all, draws, pending, AllBehind, pending-Stands, none-pending, pending-calls,
  calls-AllBehind,
}

module _ (x : ClientExternals) (enc : ClientEncoder x.Value) (defaults : Dict Str) (has_json : Bool)
    (address_of : Str → Str → Addressed) (transport : AsyncRequest x.Value → Sent → HttpOutcome)
    (requests : List (AsyncRequest x.Value)) (configured : List Str) where
  open x use {Value}

  -- A state of a call, by its goroutines and its channel.
  pub record Comes (gs : List (AsyncRequest Value × Phase)) (channel : List AsyncResponse)
      : Type 0 where
    pub count : ℕ
    pub state : Gathering Value
    pub reach : Reach x enc defaults has_json address_of transport requests configured count state
    pub goroutines : state.goroutines ≡ gs
    pub said : state.channel ≡ channel

  Comes-behind :
      (before after : List (AsyncRequest Value × Phase)) (a : AsyncRequest Value)
      (channel : List AsyncResponse) (c : Comes (before ++ ((a, starts) ∷ after)) channel)
      (o : Option Sent)
      → (run_of x enc defaults has_json address_of transport c.state.configured a).sent ≡ o
      → Comes (before ++ ((a, calls) ∷ after)) channel
  Comes-behind before after a channel c none e = record {
    count = _;
    state = _;
    reach = step c.reach (stops_early before after a c.goroutines e);
    goroutines = refl;
    said = c.said;
  }
  Comes-behind before after a channel c (some sent) e =
      elim (Bool-cases (is_configured x a.service c.state.configured)) [
        | inl is ↦ record {
          count = _;
          state = _;
          reach = step c.reach (finds before after a sent c.goroutines e is);
          goroutines = refl;
          said = c.said;
        }
        | inr is ↦ record {
          count = _;
          state = _;
          reach =
              step (step c.reach (misses before after a sent c.goroutines e is))
                (writes before after a refl);
          goroutines = refl;
          said = c.said;
        }
      ]

  all_behind :
      (before : List (AsyncRequest Value × Phase)) (rest : List (AsyncRequest Value))
      (channel : List AsyncResponse)
      → Comes (before ++ map (λ a. (a, starts)) rest) channel
      → Comes (before ++ map (λ a. (a, calls)) rest) channel
  all_behind before [] channel c = c
  all_behind before (a ∷ rest) channel c =
      let moved =
        Comes-behind before (map (λ b. (b, starts)) rest) a channel c
          (run_of x enc defaults has_json address_of transport c.state.configured a).sent refl in
      subst (λ gs. Comes gs channel)
        (append_assoc before ((a, calls) ∷ []) (map (λ b. (b, calls)) rest))
        (all_behind (before ++ ((a, calls) ∷ [])) rest channel (
          subst (λ gs. Comes gs channel)
            (sym (append_assoc before ((a, calls) ∷ []) (map (λ b. (b, starts)) rest))) moved))

  Comes-ended :
      (before after : List (AsyncRequest Value × Phase)) (a : AsyncRequest Value)
      (r : AsyncResponse) (channel : List AsyncResponse)
      → response x enc defaults has_json address_of transport a ≡ some r
      → Comes (before ++ ((a, calls) ∷ after)) channel
      → Comes (before ++ ((a, ended) ∷ after)) (channel ++ (r ∷ []))
  Comes-ended before after a r channel e c = record {
    count = _;
    state = _;
    reach = step c.reach (
        sends before after a r c.goroutines
          (ap response_of
              (run_of-Alike x enc defaults has_json address_of transport c.state.configured [] a).1
            ∙ e)
          (Reach-room x enc defaults has_json address_of transport requests configured c.count
            c.state before after a c.reach c.goroutines));
    goroutines = refl;
    said = ap (λ ch. ch ++ (r ∷ [])) c.said;
  }

  abbrev pub Ends : List (Option AsyncResponse) → Type 0
  Ends responses =
      (gs : List (AsyncRequest Value × Phase)) × (channel : List AsyncResponse) × Comes gs channel
      × All (λ g. g.1 ≡ ended) gs
      × (map some channel ≡ responses)

  drained :
      (order rest : List (AsyncRequest Value)) (gs : List (AsyncRequest Value × Phase))
      (channel : List AsyncResponse)
      → Drawn order rest
      → Comes gs channel
      → AllBehind gs
      → pending gs ≡ rest
      → All (Returns x enc defaults has_json address_of transport) rest
      → Ends (map some channel ++ map (response x enc defaults has_json address_of transport) order)
  drained _ _ gs channel drawn_all c behind e returned =
      (gs, channel, c, none-pending gs behind e, sym (append-nil (map some channel)))
  drained _ _ gs channel (draws {order = order} before after a more) c behind e returned =
      let ((r, answered), others) =
        All-middle (Returns x enc defaults has_json address_of transport) before after a returned in
      let s = pending-Stands gs before after a behind e in
      let next =
        Comes-ended s.front s.back a r channel answered (subst (λ g. Comes g channel) s.at c) in
      let more_responses = map (response x enc defaults has_json address_of transport) order in
      let same : map some (channel ++ (r ∷ [])) ++ more_responses
          ≡ map some channel
            ++ (response x enc defaults has_json address_of transport a ∷ more_responses) =
        rw (answered, map-append some channel (r ∷ []))
          (append_assoc (map some channel) (some r ∷ []) more_responses) in
      subst Ends same (
        drained order (before ++ after) (s.front ++ ((a, ended) ∷ s.back)) (channel ++ (r ∷ []))
          more next s.behind s.left others)

  -- Where the requests of a call do not panic, their responses can come in every order.
  pub Drawn-Ends :
      (order : List (AsyncRequest Value))
      → Drawn order requests
      → All (Returns x enc defaults has_json address_of transport) requests
      → Ends (map (response x enc defaults has_json address_of transport) order)
  Drawn-Ends order drawn returned =
      let first : Comes (map (λ a. (a, starts)) requests) [] = record {
        count = 0;
        state = _;
        reach = spawn;
        goroutines = refl;
        said = refl;
      } in
      drained order requests (map (λ a. (a, calls)) requests) [] drawn
        (all_behind [] requests [] first) (calls-AllBehind requests) (pending-calls requests)
        returned
