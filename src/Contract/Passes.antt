-- ===== src/Contract/Passes.antt =====
-- A contract that its own stub client passes.
use kuja.Prelude.{
  ℕ, ◌≡◌, ◌⊎◌, inl, inr, refl, sym, ap, ◌∙◌, arith, ◌==◌, true, false, Bool-cases, Option, none,
  some, List, [], ◌∷◌, ◌++◌, map, All, Str, str_eq, str_eq_iff, str_eq_self,
}
use kuja.Server.Rpc.{GoError, Returned, value}
use kuja.Client.Request.{returns}
use kuja.Contract.{
  Interaction, Contract, Accepted, accepts, passes, check_response, test_interaction,
  test_interactions, contract_test, publish_in, publish_contracts, respond_body, answer_request,
  request_contracts, stub_client, TestedClient,
}
use kuja.Contract.Laws.{OnlyPublish, request_in-skip, request_in-found, request_contracts-first}

module _ {Value : Type 0} where
  -- A contract with messages, by topic, and one request.
  abbrev pub publish_of : Str × Value → Interaction Value
  publish_of (topic, v) = record {
    request = none;
    response = none;
    publish = some (record { topic = topic; message = some v });
  }

  abbrev pub request_of : Str → Value → Value → ℕ → Option Value → Interaction Value
  request_of method v w status reply = record {
    request = some (record { method = method; body = some v; response_object = some w });
    response = some (record { status = status; body = reply; error = none });
    publish = none;
  }

  abbrev pub contract_of : Str → List (Str × Value) → Interaction Value → Contract Value
  contract_of provider messages request = record {
    provider = provider;
    interactions = map publish_of messages ++ (request ∷ []);
  }

  abbrev Occurs : Str → List (Str × Value) → Type 0
  Occurs t [] = Unit × (true ≡ false)
  Occurs t ((k, v) ∷ rest) = (k ≡ t) ⊎ Occurs t rest

  Occurs-weaken :
      (e : Str × Value) (is js : List (Str × Value))
      → All (λ f. Occurs f.0 js) is
      → All (λ f. Occurs f.0 (e ∷ js)) is
  Occurs-weaken e [] js all = tt
  Occurs-weaken e (i ∷ is) js (here, all) = (inr here, Occurs-weaken e is js all)

  Occurs-All : (is : List (Str × Value)) → All (λ f. Occurs f.0 is) is
  Occurs-All [] = tt
  Occurs-All ((k, v) ∷ is) = (inl refl, Occurs-weaken (k, v) is is (Occurs-All is))

  publish_of-OnlyPublish :
      (messages : List (Str × Value)) → All OnlyPublish (map publish_of messages)
  publish_of-OnlyPublish [] = tt
  publish_of-OnlyPublish (e ∷ rest) = (refl, publish_of-OnlyPublish rest)

module _ {Value : Type 0} (type_name : Value → Str) (marshal : Value → Returned Str)
    (unmarshal : Str → Returned Value) (text : Str → GoError) (typed : Str → Str) where
  -- A message has the type of its topic.
  abbrev pub Typed : Str × Value → Type 0
  Typed (topic, v) = type_name v ≡ typed topic

  publish_in-accepts :
      (topic : Str) (v : Value) (messages : List (Str × Value)) (rest : List (Interaction Value))
      → Typed (topic, v)
      → All Typed messages
      → Occurs topic messages
      → publish_in type_name marshal unmarshal text topic (some v) (map publish_of messages ++ rest)
        ≡ some accepts
  unfolding publish_in
  publish_in-accepts topic v [] rest own all occurs = absurd cc
  publish_in-accepts topic v ((k, w) ∷ messages) rest own (first, all) occurs =
      elim (Bool-cases (str_eq k topic)) [
        | inl same ↦
            let k_topic : k ≡ topic = (str_eq_iff k topic).0 same in
            let types : str_eq (type_name v) (type_name w) ≡ true =
              (str_eq_iff (type_name v) (type_name w)).1
                (own ∙ ap typed (sym k_topic) ∙ sym first) in
            rw (same, types) refl
        | inr other ↦ elim occurs [
          | inl e ↦ absurd (ground (arith, other, e, str_eq_iff k topic))
          | inr later ↦ rw (other) (publish_in-accepts topic v messages rest own all later)
        ]
      ]

  publish_contracts-first :
      (c : Contract Value) (cs : List (Contract Value)) (topic : Str) (v : Option Value)
      (a : Accepted)
      → publish_in type_name marshal unmarshal text topic v c.interactions ≡ some a
      → publish_contracts type_name marshal unmarshal text topic v (c ∷ cs) ≡ a
  unfolding publish_contracts
  publish_contracts-first c cs topic v a e = rw (e, publish_contracts) refl

  abbrev stub : Contract Value → List (Contract Value) → TestedClient Value
  stub c cs = stub_client type_name marshal unmarshal text (c ∷ cs)

  test_messages :
      (provider : Str) (messages todo : List (Str × Value)) (last : Interaction Value)
      (cs : List (Contract Value))
      → All Typed messages
      → All Typed todo
      → All (λ e. Occurs e.0 messages) todo
      → test_interaction (stub (contract_of provider messages last) cs) provider last ≡ passes true
      → test_interactions
          (stub (contract_of provider messages last) cs)
          provider
          (map publish_of todo ++ (last ∷ []))
        ≡ passes true
  unfolding test_interactions
  test_messages provider messages [] last cs all own occur e = rw e refl
  test_messages provider messages ((topic, v) ∷ todo) last cs all (typed, own) (here, occur) e =
      let c = contract_of provider messages last in
      let accepted : publish_contracts type_name marshal unmarshal text topic (some v) (c ∷ cs)
          ≡ accepts =
        publish_contracts-first c cs topic (some v) accepts
          (publish_in-accepts topic v messages (last ∷ []) typed all here) in
      rw (accepted, test_messages provider messages todo last cs all own occur e) refl

  -- The reply can be copied through the encoder.
  abbrev pub Copies : Option Value → Type 0
  Copies none = Unit
  Copies (some v) =
      (bytes : Str) × (w : Value) × (marshal v ≡ value bytes) × (unmarshal bytes ≡ value w)

  respond_body-Copies :
      (status : ℕ) (reply : Option Value)
      → Copies reply
      → (w : Option Value) × (respond_body type_name marshal unmarshal text status reply
          ≡ returns status none w)
  respond_body-Copies status none c = (none, refl)
  respond_body-Copies status (some v) (bytes, w, marshals, reads) =
      (some w, rw (marshals) (rw (reads) refl))

  answer_request-same :
      (method : Str) (v w : Value) (status : ℕ) (reply : Option Value)
      → answer_request type_name marshal unmarshal text method
          (some v)
          (some w)
          (record { method = method; body = some v; response_object = some w })
          (some (record { status = status; body = reply; error = none }))
        ≡ respond_body type_name marshal unmarshal text status reply
  unfolding answer_request
  answer_request-same method v w status reply =
      rw (str_eq_self method, str_eq_self (type_name v), str_eq_self (type_name w), answer_request)
        refl

  -- The stub client answers the contract's request with its status, and no error.
  pub request_contracts-Copies :
      (provider method : Str) (messages : List (Str × Value)) (v w : Value) (status : ℕ)
      (reply : Option Value) (cs : List (Contract Value))
      → Copies reply
      → (u : Option Value) × (request_contracts type_name marshal unmarshal text provider method
            (some v)
            (some w)
            (contract_of provider messages (request_of method v w status reply) ∷ cs)
          ≡ returns status none u)
  request_contracts-Copies provider method messages v w status reply cs copies =
      let last = request_of method v w status reply in
      let c = contract_of provider messages last in
      let (u, answered) = respond_body-Copies status reply copies in
      (
        u,
        request_contracts-first type_name marshal unmarshal text c cs method (some v) (some w) _ (
              request_in-skip type_name marshal unmarshal text (map publish_of messages) (last ∷ [])
                method (some v) (some w) (publish_of-OnlyPublish messages)
              ∙ request_in-found type_name marshal unmarshal text last _ [] method (some v) (some w)
                  refl)
            ∙ answer_request-same method v w status reply
            ∙ answered,
      )

  test_last :
      (provider method : Str) (messages : List (Str × Value)) (v w : Value) (status : ℕ)
      (reply : Option Value) (cs : List (Contract Value))
      → Copies reply
      → let last = request_of method v w status reply in
        test_interaction (stub (contract_of provider messages last) cs) provider last ≡ passes true
  test_last provider method messages v w status reply cs copies =
      let (u, answer) =
        request_contracts-Copies provider method messages v w status reply cs copies in
      let same : (status == status) ≡ true = ground arith in
      ap (check_response (some (record { status = status; body = reply; error = none }))) answer
      ∙ ap passes same

  -- A stub client passes the test of its first contract, where this has messages whose type is that
  -- of their topic and then one request, with a reply that the encoder can write and read.
  pub contract_test-passes :
      (provider method : Str) (messages : List (Str × Value)) (v w : Value) (status : ℕ)
      (reply : Option Value) (cs : List (Contract Value))
      → All Typed messages
      → Copies reply
      → let c = contract_of provider messages (request_of method v w status reply) in
        contract_test (stub_client type_name marshal unmarshal text (c ∷ cs)) c ≡ passes true
  unfolding contract_test
  contract_test-passes provider method messages v w status reply cs all copies =
      test_messages provider messages messages (request_of method v w status reply) cs all all
        (Occurs-All messages) (test_last provider method messages v w status reply cs copies)
