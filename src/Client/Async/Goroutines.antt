-- ===== src/Client/Async/Goroutines.antt =====
-- client/client.go: the goroutines of `AsyncRequests`. Each runs `Request` and sends its response on
-- the channel; they share the channel and the map `hystrixConfig`.
use kuja.Prelude.{
  ◌≡◌, ◌<◌, ◌+◌, ℕ, suc, length, Bool, true, false, Option, none, some, List, [], ◌∷◌, ◌++◌, map,
  Str,
}
use kuja.Prelude.Dict.{Dict}
use kuja.Server.Rpc.{GoError}
use kuja.Client.Address.{Addressed}
use kuja.Client.Request.{
  ClientEncoder, ClientExternals, HttpOutcome, Sent, Answered, returns, crashes, RequestRun,
  is_configured, configure, request,
}

-- `wanted` says that `Response` is not nil.
pub record AsyncRequest (Value : Type 0) : Type 0 where
  pub service : Str
  pub method : Str
  pub request : Value
  pub wanted : Bool
  pub metadata : Dict Str

pub record AsyncResponse : Type 0 where
  pub status : ℕ
  pub error : Option GoError

-- How far a goroutine is: it has not looked at the map, it has found its service missing there and
-- is to write it, it is behind the map, or it has sent its response.
pub data Phase : Type 0 where
  starts : Phase
  configures : Phase
  calls : Phase
  ended : Phase

-- The state that the goroutines of a call share with the loop that receives. `channel` has all that was
-- sent, in order; the loop has taken the first `taken` of it, and the others are in the channel's
-- buffer, which has room for `capacity`. A channel without a buffer would need sender and receiver to
-- step together, which the steps do not have.
pub record Gathering (Value : Type 0) : Type 0 where
  pub goroutines : List (AsyncRequest Value × Phase)
  pub configured : List Str
  pub channel : List AsyncResponse
  pub taken : ℕ
  pub capacity : ℕ

-- `AsyncResponse{status, err}`; a panic ends the process.
abbrev pub response_of : {Value : Type 0} → Answered Value → Option AsyncResponse
response_of (returns status e v) = some (record { status = status; error = e })
response_of crashes = none

-- `address_of` is `GetAddress` and `transport` what hystrix and net/http make of a call.
module _ (x : ClientExternals) (enc : ClientEncoder x.Value) (defaults : Dict Str) (has_json : Bool)
    (address_of : Str → Str → Addressed)
    (transport : AsyncRequest x.Value → Sent → HttpOutcome) where
  open x use {Value}

  -- The `Request` of a goroutine, where the map has some services.
  unfoldable pub run_of : List Str → AsyncRequest Value → RequestRun x
  unfolding request
  run_of configured a =
      request x enc defaults configured has_json a.wanted (transport a)
        (address_of a.service a.method) a.service a.metadata a.request

  -- A step of one goroutine, or of the loop. A goroutine that has nothing to send never looks at the
  -- map; one that is to send a response waits while the buffer is full. The loop takes what is in the
  -- buffer until it has a response for each goroutine.
  pub data AsyncStep (s : Gathering Value) : Gathering Value → Type 0 where
    stops_early :
        (before after : List (AsyncRequest Value × Phase)) (a : AsyncRequest Value)
        → s.goroutines ≡ before ++ ((a, starts) ∷ after)
        → (run_of s.configured a).sent ≡ none
        → AsyncStep s (record s { goroutines = before ++ ((a, calls) ∷ after) })
    finds :
        (before after : List (AsyncRequest Value × Phase)) (a : AsyncRequest Value) (sent : Sent)
        → s.goroutines ≡ before ++ ((a, starts) ∷ after)
        → (run_of s.configured a).sent ≡ some sent
        → is_configured x a.service s.configured ≡ true
        → AsyncStep s (record s { goroutines = before ++ ((a, calls) ∷ after) })
    misses :
        (before after : List (AsyncRequest Value × Phase)) (a : AsyncRequest Value) (sent : Sent)
        → s.goroutines ≡ before ++ ((a, starts) ∷ after)
        → (run_of s.configured a).sent ≡ some sent
        → is_configured x a.service s.configured ≡ false
        → AsyncStep s (record s { goroutines = before ++ ((a, configures) ∷ after) })
    writes :
        (before after : List (AsyncRequest Value × Phase)) (a : AsyncRequest Value)
        → s.goroutines ≡ before ++ ((a, configures) ∷ after)
        → AsyncStep s (record s {
          goroutines = before ++ ((a, calls) ∷ after);
          configured = configure x a.service s.configured;
        })
    sends :
        (before after : List (AsyncRequest Value × Phase)) (a : AsyncRequest Value)
        (r : AsyncResponse)
        → s.goroutines ≡ before ++ ((a, calls) ∷ after)
        → response_of (run_of s.configured a).answer ≡ some r
        → length s.channel < s.taken + s.capacity
        → AsyncStep s (record s {
          goroutines = before ++ ((a, ended) ∷ after);
          channel = s.channel ++ (r ∷ []);
        })
    takes :
        s.taken < length s.channel
        → s.taken < length s.goroutines
        → AsyncStep s (record s { taken = suc s.taken })

  -- The goroutines of a call begin on a client that has configured some services, with a channel that
  -- has room for a response of each.
  abbrev pub spawned : List (AsyncRequest Value) → List Str → Gathering Value
  spawned requests configured = record {
    goroutines = map (λ a. (a, starts)) requests;
    configured = configured;
    channel = [];
    taken = 0;
    capacity = length requests;
  }

  -- What a call can come to in a number of steps.
  pub data Reach (requests : List (AsyncRequest Value)) (configured : List Str)
      : ℕ → Gathering Value → Type 0 where
    spawn : Reach requests configured 0 (spawned requests configured)
    step :
        {n : ℕ} {s t : Gathering Value}
        → Reach requests configured n s
        → AsyncStep s t
        → Reach requests configured (suc n) t
