-- ===== src/Broker/Http.antt =====
-- broker/http/http.go: the handler of a published message, and `Publish`.
-- `Subscribe` is that of the stub broker, `subscribe` of Broker/Delivery.antt.
pub mod Laws
mod Tests
use kuja.Prelude.{ℕ, ◌==◌, if◌then◌else◌, Option, none, some, List, [], ◌∷◌, ◌++◌, Str, codes}
use mathlib.Core.Option
use kuja.Broker.Message.Marshal.{marshal}
use kuja.Prelude.Dict.{Dict, lookup}
use kuja.Broker.Message.{Message, blank}
use kuja.Broker.Message.Unmarshal.{unmarshal}
use kuja.Broker.Delivery.{BrokerHandler, HandlerTable, Published, publish_all, received}

-- The status and the body of an answer, or a panic.
pub data Response : Type 0 where
  response : ℕ → Str → Response
  broken : Response

module _ {S : Type 0} where
  abbrev pub respond_published : Published S → Response
  respond_published (none, s, m) = response 200 []
  respond_published (some e, s, m) = response 500 e

  abbrev pub serve_received : Str → Dict (BrokerHandler S) → S → Option Message → Response
  serve_received topic hs s none = broken
  serve_received topic hs s (some m) = respond_published (publish_all topic hs s m)

  abbrev pub serve_found : Str → S → Str → Option (Dict (BrokerHandler S)) → Response
  serve_found topic s bytes none = response 404 []
  serve_found topic s bytes (some hs) = serve_received topic hs s (received (unmarshal bytes blank))

  -- `ServeHTTP`; the topic is the path without its first byte.
  unfoldable pub serve_message_http : HandlerTable S → Str → Str → S → Response
  serve_message_http table [] bytes s = broken
  serve_message_http table (slash ∷ topic) bytes s = serve_found topic s bytes (lookup topic table)

-- The switch of `Publish` on the status; a request to a broken server has an error of its own.
unfoldable pub publish_error : Str → Response → Option Str
publish_error refused broken = some refused
publish_error refused (response status body) =
    if status == 404
    then some (codes "topic not found")
    else if status == 500
    then some body
    else none

-- `Publish`; `post` is the answer to a request with a URL and a body. `none` is a panic of `Marshal`.
unfoldable pub publish_http :
    (List Str → List Str) → Str → (Str → Str → Response) → Str → Str → Message → Option (Option Str)
unfolding publish_error
publish_http sort refused post addr topic m =
    Option.map
      (λ bytes. publish_error refused (post (codes "http://" ++ (addr ++ (b'/' ∷ topic))) bytes))
      (marshal sort m)
