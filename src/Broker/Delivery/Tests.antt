-- ===== src/Broker/Delivery/Tests.antt =====
-- Deliveries to a handler that fails a number of times.
use kuja.Prelude.{ℕ, zero, suc, ◌≡◌, refl, none, some, [], ◌∷◌, Str, codes}
use kuja.Broker.Message.{Message}
use kuja.Broker.Delivery.{BrokerHandler, ack, reject, retry_loop, rabbit_deliver}
use kuja.Broker.Delivery.Retries.{Ends, retry_loop-Ends, Settled, rabbit_deliver-Settled}

-- It fails as often as its state says, and asks for three retries.
abbrev failing : BrokerHandler ℕ
failing zero topic m = record { state = 0; msg = m; retry = 0; error = none }
failing (suc n) topic m = record { state = n; msg = m; retry = 3; error = some (codes "no") }

abbrev news : Message
news = record {
  id = codes "n";
  header = some ((codes "k", codes "v") ∷ []);
  retry = 0;
  body = some (codes "hi");
}

-- The second retry succeeds: the delivery is acknowledged and rejected.
twice-settled : (rabbit_deliver failing (codes "t") 2 news).settled ≡ ack ∷ reject ∷ []
unfolding rabbit_deliver
twice-settled = refl

retry_loop-Ends_example :
    Ends
      (ack ∷ [])
      failing
      (codes "t")
      3
      2
      news
      (retry_loop (ack ∷ []) failing (codes "t") 3 2 news)
retry_loop-Ends_example = retry_loop-Ends (ack ∷ []) failing (codes "t") 3 2 news

leaves : (s : ℕ) (topic : Str) (m : Message) → (failing s topic m).msg.retry ≡ m.retry
leaves zero topic m = refl
leaves (suc n) topic m = refl

rabbit_deliver-Settled_example :
    Settled failing
      (codes "t")
      2
      news
      (failing 2 (codes "t") news)
      (rabbit_deliver failing (codes "t") 2 news)
rabbit_deliver-Settled_example = rabbit_deliver-Settled failing (codes "t") 2 news
