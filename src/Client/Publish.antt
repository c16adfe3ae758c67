-- ===== src/Client/Publish.antt =====
-- client/client.go: `Publish`, and a message on its way from a client to a method of a subscriber.
mod Tests
use kuja.Prelude.{ℕ, ◌<◌, ◌^◌, ◌≡◌, refl, ap, ◌∙◌, arith, Option, none, some, List, Str}
use kuja.Prelude.Dict.{Dict, lookup, Distinct}
use kuja.Broker.Message.{Message, blank, entries, ok}
use kuja.Broker.Message.Size.{size}
use kuja.Broker.Message.Marshal.{marshal, keys}
use kuja.Broker.Message.Unmarshal.{unmarshal}
use kuja.Broker.Message.RoundTrip.{SameMessage, non_empty, unmarshal-marshal}
use kuja.Broker.Delivery.{BrokerHandler, received, rabbit_receive, rabbit_deliver}
use kuja.Broker.Publish.{
  new_message, Publication, panics, refused, sent, send_bytes, publish_message,
}
use kuja.Server.Rpc.{GoError, Returned, fails, value}
use kuja.Server.Subscribe.{Subscriber, Decoded, good, handle_decoded, subscribe_handler, as_handler}
use mathlib.Core.List.{Perm}

-- `Publish` of a broker, or a nil broker.
abbrev pub Publish : Type 0
Publish = Option (Str → Message → Publication GoError)

abbrev pub publish_to : Publish → Str → Message → Publication GoError
publish_to none topic m = panics
publish_to (some broker) topic m = broker topic m

-- From `if err != nil` on; `uuid` is the identifier that NewMessage makes.
abbrev pub publish_data :
    Str → Publish → Str → Option (Dict Str) → Returned Str → Publication GoError
publish_data uuid broker topic meta (fails e) = refused e
publish_data uuid broker topic meta (value bytes) =
    publish_to broker topic (new_message uuid meta (some bytes))

-- `Publish`; `encode` is `Marshal` of the client's encoder.
unfoldable pub publish :
    {Value : Type 0}
    → (Value → Returned Str)
    → Str
    → Publish
    → Str
    → Value
    → Option (Dict Str)
    → Publication GoError
publish encode uuid broker topic v meta = publish_data uuid broker topic meta (encode v)

module _ {S : Type 0} (h : BrokerHandler S) (topic : Str) (s : S) where
  rabbit_receive_ok :
      (bytes : Str) (m : Message)
      → unmarshal bytes blank ≡ ok tt m
      → rabbit_receive h topic bytes s ≡ some (rabbit_deliver h topic s m)
  unfolding rabbit_receive received
  rabbit_receive_ok bytes m e = rw (e, rabbit_receive)

subscribe_handler-good :
    {Data : Type 0}
    → (decode : Option Str → Decoded Data) (sub : Subscriber Data) (m : Message) (body : Option Str)
      (d : Data)
    → m.body ≡ body
    → decode body ≡ good d
    → subscribe_handler decode sub m ≡ handle_decoded sub m (good d)
unfolding subscribe_handler
subscribe_handler-good decode sub m body d e read = ap (handle_decoded sub m) (ap decode e ∙ read)

-- A message that `Publish` of a client sends over rabbitmq comes to the method of a subscriber with
-- the value, its identifier and its metadata, where the encoder of the server reads the value from
-- what the client's encoder wrote, an empty text being nil, the keys of the metadata are distinct,
-- the key order is a permutation of them, and the message has a size that fits an int.
pub rabbit_receive-publish :
    {Value Data : Type 0}
    → (encode : Value → Returned Str) (decode : Option Str → Decoded Data)
      (sort : List Str → List Str) (send : Str → Str → Option GoError) (sub : Subscriber Data)
      (uuid topic body : Str) (meta : Option (Dict Str)) (v : Value) (d : Data)
    → encode v ≡ value body
    → decode (non_empty (some body)) ≡ good d
    → Perm (sort (keys (entries meta))) (keys (entries meta))
    → Distinct (entries meta)
    → size (new_message uuid meta (some body)) < 2 ^ 63
    → (bytes : Str) × (m : Message) × (publish encode uuid
          (some (publish_message sort send))
          topic
          v
          meta
        ≡ sent topic bytes (send topic bytes))
      × (rabbit_receive (as_handler decode sub) topic bytes tt
          ≡ some (rabbit_deliver (as_handler decode sub) topic tt m))
      × (subscribe_handler decode sub m ≡ handle_decoded sub m (good d))
      × (m.id ≡ uuid)
      × (m.retry ≡ 0)
      × ((k : Str) → lookup k (entries m.header) ≡ lookup k (entries meta))
unfolding publish publish_message
rabbit_receive-publish encode decode sort send sub uuid topic body meta v d wrote read p distinct
      fits =
    let (bytes, m, marshalled, unmarshalled, same) =
      unmarshal-marshal sort (new_message uuid meta (some body)) p distinct (omega arith) fits in
    (
      bytes,
      m,
      ap (publish_data uuid (some (publish_message sort send)) topic meta) wrote
          ∙ ap (send_bytes sort send topic) marshalled,
      rabbit_receive_ok (as_handler decode sub) topic tt bytes m unmarshalled,
      subscribe_handler-good decode sub m (non_empty (some body)) d same.same_body read,
      same.same_id,
      same.same_retry,
      same.same_header,
    )
