-- ===== src/Server/Subscribe/Tests.antt =====
-- A subscriber that rejects what it gets, and asks for two retries.
use kuja.Prelude.{pos, ◌≡◌, refl, Option, none, some, Str, codes}
use kuja.Broker.Message.{Message}
use kuja.Server.Subscribe.{
  reject_with, Decoded, bad, good, Subscriber, subscribe_handler, subscribe_timeout,
}
use kuja.Server.Subscribe.Laws.{ReportsOnce, subscribe_timeout-ReportsOnce}

abbrev read_body : Option Str → Decoded Str
read_body none = bad (codes "no body")
read_body (some s) = good s

abbrev rejecting : Subscriber Str
rejecting = record {
  topic = codes "t";
  queue = codes "q";
  method = λ ctx d.
      let (e, ctx') = reject_with (pos 2) none ctx in
      record { error = some e; context = ctx'; header = ctx'.metadata };
}

abbrev letter : Message
letter = record { id = codes "1"; header = none; retry = 0; body = some (codes "hi") }

asks_twice : (subscribe_handler read_body rejecting letter).retry ≡ 2
unfolding subscribe_handler reject_with
asks_twice = refl

subscribe_timeout-ReportsOnce_example :
    ReportsOnce (subscribe_timeout read_body rejecting letter none)
subscribe_timeout-ReportsOnce_example =
    subscribe_timeout-ReportsOnce read_body rejecting letter none
