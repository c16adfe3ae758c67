-- ===== src/Broker/Delivery/Table.antt =====
-- The stub broker's table of handlers, and a message on its way through the codec to a handler.
use kuja.Prelude.{
  ◌^◌, ◌<◌, ◌≡◌, ap, ◌∙◌, arith, ◌&&◌, if◌then◌else◌, Option, some, List, Str, str_eq, str_eq_iff,
  Bool-cases, inl, inr,
}
use kuja.Prelude.Dict.{Dict, lookup, insert, lookup-insert, Distinct}
use kuja.Broker.Delivery.{
  BrokerHandler, HandlerTable, subscribe, queues, nats_receive, nats_deliver, received,
}
use kuja.Broker.Message.{Message, blank, entries, ok}
use kuja.Broker.Message.Size.{size}
use kuja.Broker.Message.Marshal.{marshal, keys}
use kuja.Broker.Message.Unmarshal.{unmarshal}
use kuja.Broker.Message.RoundTrip.{SameMessage, unmarshal-marshal}
use mathlib.Core.List.{Perm}

module _ {S : Type 0} where
  -- The handler of a queue of a topic.
  abbrev pub handler_at : Str → Str → HandlerTable S → Option (BrokerHandler S)
  handler_at topic queue table = lookup queue (queues (lookup topic table))

  queues-insert :
      (t topic queue : Str) (inner : Dict (BrokerHandler S)) (table : HandlerTable S)
      → lookup queue (queues (lookup t (insert topic inner table)))
        ≡ (if str_eq topic t then lookup queue inner else handler_at t queue table)
  queues-insert t topic queue inner table = ground (arith, lookup-insert topic t inner table)

  -- A subscription takes the place of the one with its topic and queue, and leaves the others.
  pub handler_at-subscribe :
      (topic queue t q : Str) (h : BrokerHandler S) (table : HandlerTable S)
      → handler_at t q (subscribe topic queue h table)
        ≡ (if str_eq topic t && str_eq queue q then some h else handler_at t q table)
  unfolding subscribe
  handler_at-subscribe topic queue t q h table =
      let outer = queues-insert t topic q (insert queue h (queues (lookup topic table))) table in
      let inner = lookup-insert queue q h (queues (lookup topic table)) in
      elim (Bool-cases (str_eq topic t)) [
        | inl same ↦
            let e : topic ≡ t = (str_eq_iff topic t).0 same in
            outer ∙ ground (arith, same, inner, ap (λ k. handler_at k q table) e)
        | inr other ↦ outer ∙ ground (arith, other)
      ]

-- `Publish` of the nats broker and its callback: where `Marshal` and `Unmarshal` agree, the handler
-- gets the message that was published.
module _ {S : Type 0} (h : BrokerHandler S) (topic subject : Str) (s : S) where
  nats_receive_ok :
      (bytes : Str) (m : Message)
      → unmarshal bytes blank ≡ ok tt m
      → nats_receive h topic subject bytes s ≡ some (nats_deliver h topic subject s m)
  unfolding nats_receive received
  nats_receive_ok bytes m e = rw (e, nats_receive)

  -- A message with distinct header keys, an int32 as its retry count and a size that fits an int is
  -- marshalled, and the nats callback passes the same message on from these bytes.
  pub nats_receive-marshal :
      (sort : List Str → List Str) (m : Message)
      → Perm (sort (keys (entries m.header))) (keys (entries m.header))
      → Distinct (entries m.header)
      → m.retry < 2 ^ 32
      → size m < 2 ^ 63
      → (bytes : Str) × (m' : Message) × (marshal sort m ≡ some bytes)
        × (nats_receive h topic subject bytes s ≡ some (nats_deliver h topic subject s m'))
        × SameMessage m m'
  nats_receive-marshal sort m p d small fits =
      let (bytes, m', written, read, same) = unmarshal-marshal sort m p d small fits in
      (bytes, m', written, nats_receive_ok bytes m' read, same)
