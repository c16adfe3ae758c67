-- ===== src/Contract.antt =====
-- contract/spec.go and client/stub_client/client.go: contracts between services, the test of a client
-- against a contract, and the client that answers from contracts.
pub mod Laws
pub mod Passes
pub mod Agrees
mod Tests
use kuja.Prelude.{
  ℕ, ◌==◌, Bool, true, false, ◌&&◌, not, if◌then◌else◌, Option, none, some, List, [], ◌∷◌, Str,
  codes, str_eq,
}
use kuja.Server.Rpc.{GoError, Returned, fails, value}
use kuja.Client.Request.{Answered, returns, crashes}

-- The parts of a contract that are read. `none` is a nil interface or pointer.
pub record RequestSpec (Value : Type 0) : Type 0 where
  pub method : Str
  pub body : Option Value
  pub response_object : Option Value

pub record ResponseSpec (Value : Type 0) : Type 0 where
  pub status : ℕ
  pub body : Option Value
  pub error : Option GoError

pub record PublishSpec (Value : Type 0) : Type 0 where
  pub topic : Str
  pub message : Option Value

pub record Interaction (Value : Type 0) : Type 0 where
  pub request : Option (RequestSpec Value)
  pub response : Option (ResponseSpec Value)
  pub publish : Option (PublishSpec Value)

pub record Contract (Value : Type 0) : Type 0 where
  pub provider : Str
  pub interactions : List (Interaction Value)

-- What `Publish` of a client does; `aborts` is a panic.
pub data Accepted : Type 0 where
  accepts : Accepted
  rejects : Str → Accepted
  aborts : Accepted

-- A client.Client, as a contract is tested with it.
pub record TestedClient (Value : Type 0) : Type 0 where
  pub publish : Str → Option Value → Accepted
  pub request : Str → Str → Option Value → Option Value → Answered Value

-- The asserts of a test: whether all held, or a panic.
pub data Verdict : Type 0 where
  passes : Bool → Verdict
  panics : Verdict

-- A failed assert does not end the test.
abbrev pub and_then : Verdict → Verdict → Verdict
and_then panics v = panics
and_then (passes b) panics = panics
and_then (passes b) (passes c) = passes (b && c)

-- `assert.NoError`
abbrev pub no_publish_error : Accepted → Verdict
no_publish_error accepts = passes true
no_publish_error (rejects e) = passes false
no_publish_error aborts = panics

abbrev pub is_none : Option GoError → Bool
is_none none = true
is_none (some e) = false

module _ {Value : Type 0} where
  -- `assert.NoError` and `assert.Equal` behind a request.
  abbrev pub check_response : Option (ResponseSpec Value) → Answered Value → Verdict
  check_response r crashes = panics
  check_response none (returns status e v) = panics
  check_response (some r) (returns status e v) = passes (is_none e && (r.status == status))

  abbrev pub test_request :
      TestedClient Value → Str → Option (RequestSpec Value) → Option (ResponseSpec Value) → Verdict
  test_request client provider none response = passes true
  test_request client provider (some q) response =
      check_response response (client.request provider q.method q.body q.response_object)

  -- The switch of `ContractTest`.
  abbrev pub test_publish :
      TestedClient Value → Str → Interaction Value → Option (PublishSpec Value) → Verdict
  test_publish client provider i none = test_request client provider i.request i.response
  test_publish client provider i (some p) = no_publish_error (client.publish p.topic p.message)

  abbrev pub test_interaction : TestedClient Value → Str → Interaction Value → Verdict
  test_interaction client provider i = test_publish client provider i i.publish

  unfoldable pub test_interactions : TestedClient Value → Str → List (Interaction Value) → Verdict
  test_interactions client provider [] = passes true
  test_interactions client provider (i ∷ is) =
      and_then (test_interaction client provider i) (test_interactions client provider is)

  -- `ContractTest`
  unfoldable pub contract_test : TestedClient Value → Contract Value → Verdict
  unfolding test_interactions
  contract_test client c = test_interactions client c.provider c.interactions

-- `type_name` is the name that reflect.TypeOf has for a value that is not nil.
module _ {Value : Type 0} (type_name : Value → Str) (marshal : Value → Returned Str)
    (unmarshal : Str → Returned Value) (text : Str → GoError) where
  -- Whether the type names are equal; `none` is the panic on nil.
  abbrev pub same_type : Option Value → Option Value → Option Bool
  same_type none w = none
  same_type (some v) none = none
  same_type (some v) (some w) = some (str_eq (type_name v) (type_name w))

  abbrev pub publish_answer : Option Bool → Accepted
  publish_answer none = aborts
  publish_answer (some true) = accepts
  publish_answer (some false) = rejects (codes "invalid message type")

  -- The interaction that decides a `Publish`, if any.
  abbrev pub publish_with : Str → Option Value → Option (PublishSpec Value) → Option Accepted
  publish_with topic v none = none
  publish_with topic v (some p) =
      if str_eq p.topic topic then some (publish_answer (same_type v p.message)) else none

  abbrev pub or_else : Option Accepted → Option Accepted → Option Accepted
  or_else none a = a
  or_else (some b) a = some b

  unfoldable pub publish_in : Str → Option Value → List (Interaction Value) → Option Accepted
  publish_in topic v [] = none
  publish_in topic v (i ∷ is) = or_else (publish_with topic v i.publish) (publish_in topic v is)

  unfoldable pub publish_contracts : Str → Option Value → List (Contract Value) → Accepted
  unfolding publish_in
  publish_contracts topic v [] = rejects (codes "no topic in contact")
  publish_contracts topic v (c ∷ cs) = elim (publish_in topic v c.interactions) [
    | none ↦ publish_contracts topic v cs
    | some a ↦ a
  ]

  abbrev pub refuse : Str → Answered Value
  refuse s = returns 500 (some (text s)) none

  abbrev pub copied : ℕ → Returned Value → Answered Value
  copied status (fails e) = returns 500 (some e) none
  copied status (value v) = returns status none (some v)

  abbrev pub copy_body : ℕ → Returned Str → Answered Value
  copy_body status (fails e) = returns 500 (some e) none
  copy_body status (value bytes) = copied status (unmarshal bytes)

  abbrev pub respond_body : ℕ → Option Value → Answered Value
  respond_body status none = returns status none none
  respond_body status (some v) = copy_body status (marshal v)

  abbrev pub respond_error : ResponseSpec Value → Option GoError → Answered Value
  respond_error r (some e) = returns 500 (some e) none
  respond_error r none = respond_body r.status r.body

  abbrev pub respond_with : Option (ResponseSpec Value) → Answered Value
  respond_with none = refuse (codes "no response")
  respond_with (some r) = respond_error r r.error

  abbrev pub check_type : Option Bool → Str → Answered Value → Answered Value
  check_type none s a = crashes
  check_type (some true) s a = a
  check_type (some false) s a = refuse s

  -- The body of the loop for an interaction with a request.
  unfoldable pub answer_request :
      Str
      → Option Value
      → Option Value
      → RequestSpec Value
      → Option (ResponseSpec Value)
      → Answered Value
  answer_request method reqv respv q response =
      if str_eq q.method method
      then check_type (same_type reqv q.body) (codes "invalid request type") (
          check_type (same_type respv q.response_object) (codes "invalid response type")
            (respond_with response))
      else refuse (codes "no method in contact")

  -- The first interaction with a request decides.
  unfoldable pub request_in :
      Str → Option Value → Option Value → List (Interaction Value) → Option (Answered Value)
  unfolding answer_request
  request_in method reqv respv [] = none
  request_in method reqv respv (i ∷ is) = elim i.request [
    | none ↦ request_in method reqv respv is
    | some q ↦ some (answer_request method reqv respv q i.response)
  ]

  abbrev pub first_answer : Bool → Option (Answered Value) → Answered Value → Answered Value
  first_answer false a rest = rest
  first_answer true none rest = rest
  first_answer true (some a) rest = a

  unfoldable pub request_contracts :
      Str → Str → Option Value → Option Value → List (Contract Value) → Answered Value
  unfolding request_in
  request_contracts service method reqv respv [] = refuse (codes "no service in contact")
  request_contracts service method reqv respv (c ∷ cs) =
      first_answer (str_eq c.provider service) (request_in method reqv respv c.interactions)
        (request_contracts service method reqv respv cs)

  -- The stub client of some contracts.
  abbrev pub stub_client : List (Contract Value) → TestedClient Value
  stub_client cs = record {
    publish = λ topic v. publish_contracts topic v cs;
    request = λ service method reqv respv. request_contracts service method reqv respv cs;
  }
