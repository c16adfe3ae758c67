-- ===== src/Client/Async.antt =====
-- client/client.go and client/stub_client/client.go: the loop of `AsyncRequests` over the channel.
pub mod Goroutines
pub mod Alike
pub mod Responses
pub mod Progress
pub mod Race
pub mod Drawn
pub mod Orders
mod Tests
use mathlib.Core.List.{append_assoc}
use kuja.Prelude.{
  ℕ, ◌+◌, ◌==◌, ◌≡◌, ◌≢◌, refl, ap, ◌∙◌, arith, true, false, List, [], ◌∷◌, ◌++◌, length,
  length-append,
}

-- A run of the loop over the channel, which nobody closes: it blocks when nothing more comes.
pub data Collected (R : Type 0) : Type 0 where
  collects : List R → Collected R
  blocks : Collected R

module _ {R : Type 0} where
  -- `received` are the responses in the order in which the requests end.
  unfoldable pub collect : ℕ → List R → List R → Collected R
  collect n acc [] = blocks
  collect n acc (r ∷ received) = elim (length (acc ++ (r ∷ [])) == n) [
    | true ↦ collects (acc ++ (r ∷ []))
    | false ↦ collect n (acc ++ (r ∷ [])) received
  ]

  -- One goroutine for each request sends one response.
  unfoldable pub async_requests : ℕ → List R → Collected R
  unfolding collect
  async_requests n received = collect n [] received

  collect_last :
      (n : ℕ) (acc : List R) (r : R) (received : List R)
      → length acc + 1 ≡ n
      → collect n acc (r ∷ received) ≡ collects (acc ++ (r ∷ []))
  unfolding collect
  collect_last n acc r received e = ground (arith, length-append acc (r ∷ []))

  collect_more :
      (n : ℕ) (acc : List R) (r : R) (received : List R)
      → length acc + 1 ≢ n
      → collect n acc (r ∷ received) ≡ collect n (acc ++ (r ∷ [])) received
  unfolding collect
  collect_more n acc r received ne =
      let more : (length (acc ++ (r ∷ [])) == n) ≡ false =
        ground (arith, length-append acc (r ∷ [])) in
      rw (more, collect)

  collect_all :
      (n : ℕ) (acc : List R) (r : R) (received : List R)
      → length acc + length (r ∷ received) ≡ n
      → collect n acc (r ∷ received) ≡ collects (acc ++ (r ∷ received))
  collect_all n acc r [] e = collect_last n acc r [] e
  collect_all n acc r (s ∷ received) e =
      collect_more n acc r (s ∷ received) (λ short. omega (arith, short))
      ∙ collect_all n (acc ++ (r ∷ [])) s received (omega (arith, length-append acc (r ∷ [])))
      ∙ ap collects (append_assoc acc (r ∷ []) (s ∷ received))

  abbrev pub collected_for : {A : Type 0} → List A → List R → Collected R
  collected_for [] received = blocks
  collected_for (a ∷ rest) received = collects received

-- With one response for each request, `AsyncRequests` returns them in the order in which they came
-- in; without a request it blocks for ever.
pub async_requests-collects :
    {A R : Type 0} (requests : List A) (received : List R)
    → length received ≡ length requests
    → async_requests (length requests) received ≡ collected_for requests received
unfolding async_requests collect
async_requests-collects [] [] e = refl
async_requests-collects [] (r ∷ received) e = absurd (omega arith)
async_requests-collects (a ∷ requests) [] e = absurd (omega arith)
async_requests-collects (a ∷ requests) (r ∷ received) e =
    collect_all (length (a ∷ requests)) [] r received (omega arith)
