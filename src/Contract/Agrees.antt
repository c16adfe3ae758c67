-- ===== src/Contract/Agrees.antt =====
-- What a contract that was tested with a client says of this client and of the stub client.
use kuja.Prelude.{
  ℕ, ◌≡◌, refl, ap, arith, ◌==◌, true, false, Option, none, some, List, [], ◌∷◌, ◌++◌, map, Str,
}
use kuja.Server.Rpc.{GoError, Returned}
use kuja.Client.Request.{Answered, returns, crashes}
use kuja.Contract.{
  Interaction, Contract, TestedClient, Verdict, passes, panics, and_then, ResponseSpec,
  check_response, test_interaction, test_interactions, contract_test, stub_client,
}
use kuja.Contract.Passes.{publish_of, request_of, contract_of, Copies, request_contracts-Copies}

and_then-true : (a b : Verdict) → and_then a b ≡ passes true → (a ≡ passes true) × (b ≡ passes true)
and_then-true panics b e = absurd cc
and_then-true (passes a) panics e = absurd cc
and_then-true (passes true) (passes b) e = (refl, e)
and_then-true (passes false) (passes b) e = absurd cc

module _ {Value : Type 0} where
  -- A test that passes has passed the last interaction.
  test_interactions-last :
      (client : TestedClient Value) (provider : Str) (is : List (Interaction Value))
      (i : Interaction Value)
      → test_interactions client provider (is ++ (i ∷ [])) ≡ passes true
      → test_interaction client provider i ≡ passes true
  unfolding test_interactions
  test_interactions-last client provider [] i e =
      (and_then-true (test_interaction client provider i) (passes true) e).0
  test_interactions-last client provider (j ∷ is) i e =
      test_interactions-last client provider is i
        (and_then-true (test_interaction client provider j)
          (test_interactions client provider (is ++ (i ∷ []))) e).1

  check_response-true :
      (r : ResponseSpec Value) (a : Answered Value)
      → check_response (some r) a ≡ passes true
      → (v : Option Value) × (a ≡ returns r.status none v)
  check_response-true r crashes e = absurd cc
  check_response-true r (returns status (some err) v) e = absurd cc
  check_response-true r (returns status none v) e =
      let same : (r.status == status) ≡ true = cc in
      let is : status ≡ r.status = ground (arith, same) in (v, ap (λ n. returns n none v) is)

  -- A client that passes the test of a contract with messages and one request answers this request
  -- with the status and the absence of an error that a stub client of the contract gives, where the
  -- encoder of the stub client can write and read the reply of the contract.
  pub contract_test-agrees :
      (type_name : Value → Str) (marshal : Value → Returned Str) (unmarshal : Str → Returned Value)
      (text : Str → GoError) (typed : Str → Str) (client : TestedClient Value)
      (provider method : Str) (messages : List (Str × Value)) (v w : Value) (status : ℕ)
      (reply : Option Value) (cs : List (Contract Value))
      → Copies type_name marshal unmarshal text typed reply
      → let c = contract_of provider messages (request_of method v w status reply) in
        contract_test client c ≡ passes true
        → (a b : Option Value) × (client.request provider method (some v) (some w)
            ≡ returns status none a)
          × ((stub_client type_name marshal unmarshal text (c ∷ cs)).request provider method
                (some v)
                (some w)
              ≡ returns status none b)
  unfolding contract_test
  contract_test-agrees type_name marshal unmarshal text typed client provider method messages v w
        status reply cs copies passed =
      let last = request_of method v w status reply in
      let (a, answered) =
        check_response-true (record { status = status; body = reply; error = none })
          (client.request provider method (some v) (some w))
          (test_interactions-last client provider (map publish_of messages) last passed) in
      let (b, stubbed) =
        request_contracts-Copies type_name marshal unmarshal text typed provider method messages v w
          status reply cs copies in
      (a, b, answered, stubbed)
