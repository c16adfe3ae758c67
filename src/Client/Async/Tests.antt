-- ===== src/Client/Async/Tests.antt =====
-- A call of AsyncRequests with two requests, whose responses come in the other order.
use mathlib.Core.List.{Perm}
use kuja.Prelude.{
  arith, ◌≡◌, ◌≤◌, ◌⊎◌, refl, ℕ, ◌*◌, true, false, none, some, [], ◌∷◌, map, Str, codes, str_eq,
  All,
}
use kuja.Server.Rpc.{value}
use kuja.Client.Address.{Addressed, address}
use kuja.Client.Request.{
  ClientExternals, HttpResponse, HttpOutcome, responds, Sent, request, receive,
}
use kuja.Client.Tests.{copy_encoder, json_error_of, plain_error}
use kuja.Client.Async.{async_requests, collected_for}
use kuja.Client.Async.Goroutines.{
  AsyncRequest, AsyncResponse, configures, ended, Gathering, run_of, AsyncStep, misses, writes,
  sends, Reach, spawn, step,
}
use kuja.Client.Async.Responses.{response, Reach-async_requests}
use kuja.Client.Async.Progress.{Reach-Progresses}
use kuja.Client.Async.Race.{Reach-configures}
use kuja.Client.Async.Drawn.{drawn_all, draws}
use kuja.Client.Async.Orders.{Ends, Drawn-Ends}

abbrev bare : ClientExternals
bare = record {
  Value = Str;
  snappy_decode = λ s. value s;
  error_value = json_error_of;
  new_error = plain_error;
  bad_request = λ s. none;
  canonical = λ s. s;
}

abbrev asking : Str → AsyncRequest Str
asking service = record {
  service = service;
  method = codes "Get";
  request = codes "{}";
  wanted = false;
  metadata = [];
}

abbrev users : AsyncRequest Str
users = asking (codes "users")

abbrev items : AsyncRequest Str
items = asking (codes "items")

abbrev at_service : Str → Str → Addressed
at_service service method = address service

abbrev fine : HttpResponse
fine = record { status = 200; content_type = []; snappy = []; body = [] }

abbrev missing : HttpResponse
missing = record fine { status = 404 }

-- There is only a service of users.
abbrev transport_of : AsyncRequest Str → Sent → HttpOutcome
transport_of a sent = elim (str_eq a.service (codes "users")) [
  | true ↦ responds fine
  | false ↦ responds missing
]

abbrev ReachIn : ℕ → Gathering Str → Type 0
ReachIn n s = Reach bare copy_encoder [] false at_service transport_of (users ∷ items ∷ []) [] n s

abbrev plain : ℕ → AsyncResponse
plain status = record { status = status; error = none }

abbrev both_writing : Gathering Str
both_writing = record {
  goroutines = (users, configures) ∷ (items, configures) ∷ [];
  configured = [];
  channel = [];
  taken = 0;
  capacity = 2;
}

abbrev both_sent : Gathering Str
both_sent = record {
  goroutines = (users, ended) ∷ (items, ended) ∷ [];
  configured = codes "items" ∷ codes "users" ∷ [];
  channel = plain 404 ∷ plain 200 ∷ [];
  taken = 0;
  capacity = 2;
}

Reach-configures_example : ReachIn 2 both_writing
unfolding run_of request
Reach-configures_example =
    Reach-configures bare copy_encoder [] false at_service transport_of (users ∷ items ∷ []) []
      (((_, refl), refl), (((_, refl), refl), tt))

reach_writing : ReachIn 2 both_writing
unfolding run_of request
reach_writing =
    step (step spawn (misses [] _ users _ refl refl refl))
      (misses (_ ∷ []) [] items _ refl refl refl)

reach_sent : ReachIn 6 both_sent
unfolding run_of request receive str_eq
reach_sent =
    step
      (step (step (step reach_writing (writes [] _ users refl)) (writes (_ ∷ []) [] items refl))
        (sends (_ ∷ []) [] items (plain 404) refl refl (omega arith)))
      (sends [] _ users (plain 200) refl refl (omega arith))

Reach-async_requests_example :
    (async_requests 2 (plain 404 ∷ plain 200 ∷ [])
      ≡ collected_for (users ∷ items ∷ []) (plain 404 ∷ plain 200 ∷ []))
    × Perm
        (some (plain 404) ∷ some (plain 200) ∷ [])
        (map (response bare copy_encoder [] false at_service transport_of) (users ∷ items ∷ []))
Reach-async_requests_example =
    Reach-async_requests bare copy_encoder [] false at_service transport_of (users ∷ items ∷ []) []
      6 both_sent reach_sent (refl, (refl, tt))

Reach-Progresses_example :
    (2 ≤ 4 * 2)
    × ((All (λ g. g.1 ≡ ended) both_writing.goroutines × (both_writing.taken ≡ 2))
        ⊎ ((t : Gathering Str) × AsyncStep bare copy_encoder [] false at_service transport_of
              both_writing t))
unfolding run_of request receive str_eq
Reach-Progresses_example =
    Reach-Progresses bare copy_encoder [] false at_service transport_of (users ∷ items ∷ []) [] 2
      both_writing ((plain 200, refl), ((plain 404, refl), tt)) reach_writing

Drawn-Ends_example :
    Ends bare copy_encoder [] false at_service transport_of
      (users ∷ items ∷ [])
      []
      (map (response bare copy_encoder [] false at_service transport_of) (items ∷ users ∷ []))
unfolding run_of request receive str_eq
Drawn-Ends_example =
    Drawn-Ends bare copy_encoder [] false at_service transport_of (users ∷ items ∷ []) []
      (items ∷ users ∷ []) (draws (users ∷ []) [] items (draws [] [] users drawn_all))
      ((plain 200, refl), ((plain 404, refl), tt))
