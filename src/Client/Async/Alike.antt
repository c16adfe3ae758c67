-- ===== src/Client/Async/Alike.antt =====
-- client/client.go: what the map `hystrixConfig` has to say in a `Request` of `AsyncRequests`.
use kuja.Prelude.{◌≡◌, refl, Bool, Option, none, some, List, Str}
use kuja.Prelude.Dict.{Dict}
use kuja.Server.Rpc.{GoError, Returned, fails, value}
use kuja.Client.Address.{Addressed, address, failed, panics}
use kuja.Client.Request.{
  ClientEncoder, ClientExternals, HttpOutcome, Sent, RequestRun, with_body, with_request, request,
}
use kuja.Client.Async.Goroutines.{AsyncRequest, run_of}

module _ (x : ClientExternals) (enc : ClientEncoder x.Value) (defaults : Dict Str) (has_json : Bool)
    (address_of : Str → Str → Addressed)
    (transport : AsyncRequest x.Value → Sent → HttpOutcome) where
  open x use {Value, bad_request}

  abbrev pub request_run : List Str → AsyncRequest Value → RequestRun x
  request_run = run_of x enc defaults has_json address_of transport

  module _ (c d : List Str) (a : AsyncRequest Value) where
    abbrev Alike : RequestRun x → RequestRun x → Type 0
    Alike r r' = (r.sent ≡ r'.sent) × (r.answer ≡ r'.answer)

    with_request-Alike :
        (url body : Str) (bad : Option GoError)
        → Alike
            (with_request x enc defaults c has_json a.wanted
              (transport a)
              a.service
              a.metadata
              url
              body
              bad)
            (with_request x enc defaults d has_json a.wanted
              (transport a)
              a.service
              a.metadata
              url
              body
              bad)
    with_request-Alike url body none = (refl, refl)
    with_request-Alike url body (some e) = (refl, refl)

    with_body-Alike :
        (url : Str) (bytes : Returned Str)
        → Alike
            (with_body x enc defaults c has_json a.wanted
              (transport a)
              a.service
              a.metadata
              url
              bytes)
            (with_body x enc defaults d has_json a.wanted
              (transport a)
              a.service
              a.metadata
              url
              bytes)
    with_body-Alike url (fails e) = (refl, refl)
    with_body-Alike url (value body) = with_request-Alike url body (bad_request url)

    request-Alike :
        (found : Addressed)
        → Alike
            (request x enc defaults c has_json a.wanted
              (transport a)
              found
              a.service
              a.metadata
              a.request)
            (request x enc defaults d has_json a.wanted
              (transport a)
              found
              a.service
              a.metadata
              a.request)
    unfolding request
    request-Alike panics = (refl, refl)
    request-Alike (failed e) = (refl, refl)
    request-Alike (address url) = with_body-Alike url (enc.marshal a.request)

    -- What is sent and what comes back does not depend on the map.
    pub run_of-Alike :
        ((request_run c a).sent ≡ (request_run d a).sent)
        × ((request_run c a).answer ≡ (request_run d a).answer)
    unfolding run_of
    run_of-Alike = request-Alike (address_of a.service a.method)
