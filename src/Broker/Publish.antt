-- ===== src/Broker/Publish.antt =====
-- broker/broker.go: NewMessage; `Publish` of broker/nats/nats.go and of broker/rabbitmq/rabbitmq.go.
use kuja.Prelude.{Option, none, some, List, Str}
use kuja.Prelude.Dict.{Dict}
use kuja.Broker.Message.{Message}
use kuja.Broker.Message.Marshal.{marshal}

-- `NewMessage`, with the identifier that uuid.NewV1 makes
abbrev pub new_message : Str → Option (Dict Str) → Option Str → Message
new_message uuid meta body = record { id = uuid; header = meta; retry = 0; body = body }

-- What `Publish` does: it panics, it returns an error before it has sent anything, or it sends bytes
-- for a topic and returns the error of the connection, if any.
pub data Publication (E : Type 0) : Type 0 where
  panics : Publication E
  refused : E → Publication E
  sent : Str → Str → Option E → Publication E

-- `send` is the error of the connection for a topic, or an exchange, and bytes.
module _ {E : Type 0} (sort : List Str → List Str) (send : Str → Str → Option E) where
  abbrev pub send_bytes : Str → Option Str → Publication E
  send_bytes topic none = panics
  send_bytes topic (some bytes) = sent topic bytes (send topic bytes)

  -- `Publish` of both brokers; the error of `Marshal` is always nil.
  unfoldable pub publish_message : Str → Message → Publication E
  publish_message topic m = send_bytes topic (marshal sort m)
