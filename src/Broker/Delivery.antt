-- ===== src/Broker/Delivery.antt =====
-- broker/nats, broker/rabbitmq and broker/stub_broker: what a broker does with a message that has
-- come in, and the stub's table of handlers.
pub mod Retries
pub mod Table
mod Tests
use kuja.Prelude.{
  ℕ, zero, suc, ◌+◌, ◌%◌, ◌^◌, Bool, true, false, Option, none, some, List, [], ◌∷◌, ◌++◌, Str,
  codes,
}
use kuja.Prelude.Dict.{Dict, lookup, insert}
use kuja.Broker.Message.{Message, blank, Outcome, ok, err, panic, stuck}
use kuja.Broker.Message.Unmarshal.{unmarshal}

-- What a call of a handler leaves: the state it works on, the message, which it has a pointer to,
-- the number of retries that it asks for, and its error.
pub record Handled (S : Type 0) : Type 0 where
  pub state : S
  pub msg : Message
  pub retry : ℕ
  pub error : Option Str

abbrev pub BrokerHandler : Type 0 → Type 0
BrokerHandler S = S → Str → Message → Handled S

pub data Settlement : Type 0 where
  ack reject : Settlement

-- The run of a delivery: `tried` has the messages that the handler was called with, in order.
pub record Delivery (S : Type 0) : Type 0 where
  pub state : S
  pub msg : Message
  pub tried : List Message
  pub succeeded : Bool
  pub settled : List Settlement

-- `brokerMsg.Retry++` on an int32
abbrev pub bump : Message → Message
bump m = record m { retry = (m.retry + 1) % 2 ^ 32 }

module _ {S : Type 0} where
  abbrev pub after_try : Message → Delivery S → Delivery S
  after_try m d = record d { tried = m ∷ d.tried }

  -- `for i := 0; i < retryCount; i++`; `won` is what is done with the delivery on success.
  unfoldable pub retry_loop : List Settlement → BrokerHandler S → Str → ℕ → S → Message → Delivery S
  retry_loop won h topic zero s m = record {
    state = s;
    msg = m;
    tried = [];
    succeeded = false;
    settled = [];
  }
  retry_loop won h topic (suc n) s m =
      let r = h s topic (bump m) in
      elim r.error [
        | none ↦ record {
          state = r.state;
          msg = r.msg;
          tried = bump m ∷ [];
          succeeded = true;
          settled = won;
        }
        | some e ↦ after_try (bump m) (retry_loop won h topic n r.state r.msg)
      ]

  -- The callback of the nats broker, behind `Unmarshal`. The first call has the subject, the
  -- others the topic that was subscribed to.
  unfoldable pub nats_deliver : BrokerHandler S → Str → Str → S → Message → Delivery S
  unfolding retry_loop
  nats_deliver h topic subject s m =
      let r = h s subject m in
      elim r.error [
        | none ↦ record {
          state = r.state;
          msg = r.msg;
          tried = m ∷ [];
          succeeded = true;
          settled = [];
        }
        | some e ↦ after_try m (retry_loop [] h topic r.retry r.state r.msg)
      ]

  abbrev pub then_settle : Settlement → Delivery S → Delivery S
  then_settle x d = record d { settled = d.settled ++ (x ∷ []) }

  -- The loop body of the rabbitmq consumer, behind `Unmarshal`.
  unfoldable pub rabbit_deliver : BrokerHandler S → Str → S → Message → Delivery S
  unfolding retry_loop
  rabbit_deliver h topic s m =
      let r = h s topic m in
      elim r.error [
        | none ↦ record {
          state = r.state;
          msg = r.msg;
          tried = m ∷ [];
          succeeded = true;
          settled = ack ∷ [];
        }
        | some e ↦
            then_settle reject (after_try m (retry_loop (ack ∷ []) h topic r.retry r.state r.msg))
      ]

-- The message that `Unmarshal` leaves behind: its error is dropped. `none` is a panic, which ends
-- the process.
unfoldable pub received : Outcome Unit → Option Message
received (ok r m) = some m
received (err e m) = some m
received panic = none
received stuck = none

module _ {S : Type 0} where
  unfoldable pub nats_receive : BrokerHandler S → Str → Str → Str → S → Option (Delivery S)
  unfolding nats_deliver
  nats_receive h topic subject bytes s = elim (received (unmarshal bytes blank)) [
    | none ↦ none
    | some m ↦ some (nats_deliver h topic subject s m)
  ]

  unfoldable pub rabbit_receive : BrokerHandler S → Str → Str → S → Option (Delivery S)
  unfolding rabbit_deliver
  rabbit_receive h topic bytes s = elim (received (unmarshal bytes blank)) [
    | none ↦ none
    | some m ↦ some (rabbit_deliver h topic s m)
  ]

-- The stub broker: by topic, the handlers by queue.
abbrev pub HandlerTable : Type 0 → Type 0
HandlerTable S = Dict (Dict (BrokerHandler S))

-- The error of `Publish`, and the state and the message behind it.
abbrev pub Published : Type 0 → Type 0
Published S = Option Str × S × Message

module _ {S : Type 0} where
  abbrev pub queues : Option (Dict (BrokerHandler S)) → Dict (BrokerHandler S)
  queues none = []
  queues (some m) = m

  unfoldable pub subscribe : Str → Str → BrokerHandler S → HandlerTable S → HandlerTable S
  subscribe topic queue h table = insert topic (insert queue h (queues (lookup topic table))) table

  -- The range over the queues, which ends at the first error.
  unfoldable pub publish_all : Str → Dict (BrokerHandler S) → S → Message → Published S
  publish_all topic [] s m = (none, s, m)
  publish_all topic ((queue, h) ∷ hs) s m =
      let r = h s topic m in
      elim r.error [ none ↦ publish_all topic hs r.state r.msg | some e ↦ (some e, r.state, r.msg) ]

  unfoldable pub publish : HandlerTable S → Str → S → Message → Published S
  unfolding publish_all
  publish table topic s m = elim (lookup topic table) [
    | none ↦ (some (codes "topic not found"), s, m)
    | some hs ↦ publish_all topic hs s m
  ]
