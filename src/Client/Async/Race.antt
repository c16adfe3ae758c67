-- ===== src/Client/Async/Race.antt =====
-- The map `hystrixConfig` of client/client.go, which the goroutines of `AsyncRequests` read and
-- write without a lock.
use mathlib.Core.Path.{subst}
use mathlib.Core.List.{append_assoc}
use kuja.Prelude.{
  ◌≡◌, refl, sym, arith, ℕ, suc, ◌+◌, Bool, false, some, List, [], ◌∷◌, ◌++◌, map, Str, length, All,
}
use kuja.Prelude.Dict.{Dict}
use kuja.Client.Address.{Addressed}
use kuja.Client.Request.{ClientEncoder, ClientExternals, HttpOutcome, Sent, is_configured}
use kuja.Client.Async.Goroutines.{
  AsyncRequest, Phase, starts, configures, Gathering, run_of, misses, Reach, spawn, step,
}

module _ (x : ClientExternals) (enc : ClientEncoder x.Value) (defaults : Dict Str) (has_json : Bool)
    (address_of : Str → Str → Addressed) (transport : AsyncRequest x.Value → Sent → HttpOutcome)
    (requests : List (AsyncRequest x.Value)) (configured : List Str) where
  open x use {Value}

  -- The request is sent, and its service is not in the map.
  abbrev pub IsUnconfigured : AsyncRequest Value → Type 0
  IsUnconfigured a =
      ((sent : Sent) × ((run_of x enc defaults has_json address_of transport configured a).sent
          ≡ some sent))
      × (is_configured x a.service configured ≡ false)

  abbrev at_work : List (AsyncRequest Value × Phase) → Gathering Value
  at_work gs = record {
    goroutines = gs;
    configured = configured;
    channel = [];
    taken = 0;
    capacity = length requests;
  }

  abbrev ReachHere : ℕ → List (AsyncRequest Value × Phase) → Type 0
  ReachHere n gs =
      Reach x enc defaults has_json address_of transport requests configured n (at_work gs)

  Reach-rest :
      (n : ℕ) (before : List (AsyncRequest Value × Phase)) (rest : List (AsyncRequest Value))
      → All IsUnconfigured rest
      → ReachHere n (before ++ map (λ a. (a, starts)) rest)
      → ReachHere (n + length rest) (before ++ map (λ a. (a, configures)) rest)
  Reach-rest n before [] all reach =
      let e : n ≡ n + 0 = omega arith in subst (λ m. ReachHere m (before ++ [])) e reach
  Reach-rest n before (a ∷ rest) (((sent, goes), is), all) reach =
      let moved = step reach (misses before (map (λ b. (b, starts)) rest) a sent refl goes is) in
      let front =
        subst (ReachHere (suc n))
          (sym (append_assoc before ((a, configures) ∷ []) (map (λ b. (b, starts)) rest))) moved in
      let e : suc n + length rest ≡ n + suc (length rest) = omega arith in
      subst (λ m. ReachHere m (before ++ map (λ b. (b, configures)) (a ∷ rest))) e
        (subst (ReachHere (suc n + length rest))
          (append_assoc before ((a, configures) ∷ []) (map (λ b. (b, configures)) rest))
          (Reach-rest (suc n) (before ++ ((a, configures) ∷ [])) rest all front))

  -- Where the services of the requests of a call are not configured and the requests are sent, all
  -- goroutines can come to the write of the map at the same time.
  pub Reach-configures :
      All IsUnconfigured requests
      → Reach x enc defaults has_json address_of transport requests configured
          (length requests)
          (record {
            goroutines = map (λ a. (a, configures)) requests;
            configured = configured;
            channel = [];
            taken = 0;
            capacity = length requests;
          })
  Reach-configures all =
      let e : 0 + length requests ≡ length requests = omega arith in
      subst (λ n. ReachHere n (map (λ a. (a, configures)) requests)) e
        (Reach-rest 0 [] requests all spawn)
