-- ===== src/Broker/Http/Laws.antt =====
-- The http broker's `Publish` against that of the stub broker.
use kuja.Prelude.{
  List, ◌++◌, ◌<◌, ◌^◌, ◌≡◌, refl, sym, ap, ◌∙◌, Option, none, some, Option-cases, inl, inr, ◌∷◌,
  Str, codes,
}
use kuja.Prelude.Dict.{Dict, lookup, Distinct}
use kuja.Broker.Message.{Message, blank, ok, entries}
use kuja.Broker.Message.Size.{size}
use kuja.Broker.Message.Marshal.{keys}
use kuja.Broker.Message.RoundTrip.{SameMessage, unmarshal-marshal}
use mathlib.Core.Option
use mathlib.Core.List.{Perm}
use kuja.Broker.Message.Unmarshal.{unmarshal}
use kuja.Broker.Delivery.{BrokerHandler, HandlerTable, Published, publish_all, publish, received}
use kuja.Broker.Http.{
  respond_published, serve_received, serve_found, serve_message_http, publish_error, Response,
  publish_http,
}

module _ {S : Type 0} (refused topic : Str) (s : S) where
  error-published : (p : Published S) → publish_error refused (respond_published p) ≡ p.0
  unfolding publish_error
  error-published (none, s', m) = refl
  error-published (some e, s', m) = refl

  -- What the stub broker does with the handlers that it finds for the topic.
  abbrev publish_found : Message → Option (Dict (BrokerHandler S)) → Published S
  publish_found m none = (some (codes "topic not found"), s, m)
  publish_found m (some hs) = publish_all topic hs s m

  error-found :
      (bytes : Str) (m : Message) (o : Option (Dict (BrokerHandler S)))
      → received (unmarshal bytes blank) ≡ some m
      → publish_error refused (serve_found topic s bytes o) ≡ (publish_found m o).0
  unfolding publish_error
  error-found bytes m none e = refl
  error-found bytes m (some hs) e =
      ap (λ r. publish_error refused (serve_received topic hs s r)) e
      ∙ error-published (publish_all topic hs s m)

  received_ok :
      (bytes : Str) (m : Message)
      → unmarshal bytes blank ≡ ok tt m
      → received (unmarshal bytes blank) ≡ some m
  unfolding received
  received_ok bytes m e = ap received e

  publish-found :
      (table : HandlerTable S) (m : Message)
      → publish table topic s m ≡ publish_found m (lookup topic table)
  unfolding publish
  publish-found table m = elim (Option-cases (lookup topic table)) [
    | inl missing ↦ rw (missing, publish)
    | inr (hs, found) ↦ rw (found, publish)
  ]

  -- With the bytes of a message, `Publish` of the http broker gives the error that `Publish` of the
  -- stub broker gives for the message, where both have the same handlers and the request arrives.
  pub publish_error-publish :
      (table : HandlerTable S) (bytes : Str) (m : Message)
      → unmarshal bytes blank ≡ ok tt m
      → publish_error refused (serve_message_http table (b'/' ∷ topic) bytes s)
        ≡ (publish table topic s m).0
  unfolding serve_message_http
  publish_error-publish table bytes m e =
      error-found bytes m (lookup topic table) (received_ok bytes m e)
      ∙ ap (λ p. p.0) (sym (publish-found table m))

-- A message that the http broker publishes to itself gives the error that the stub broker gives for
-- the message as it is read back: the handlers get the same identifier, metadata and retry count,
-- and the same body, an empty one being nil. The request comes to `ServeHTTP` with the path of its
-- URL, the key order is a permutation of the keys of the metadata, which are distinct, the retry count
-- is an int32 and the size is an int.
pub publish_http-publish :
    {S : Type 0} (sort : List Str → List Str) (refused addr topic : Str)
    (post : Str → Str → Response) (table : HandlerTable S) (s : S) (m : Message)
    → ((bytes : Str)
        → post (codes "http://" ++ (addr ++ (b'/' ∷ topic))) bytes
          ≡ serve_message_http table (b'/' ∷ topic) bytes s)
    → Perm (sort (keys (entries m.header))) (keys (entries m.header))
    → Distinct (entries m.header)
    → m.retry < 2 ^ 32
    → size m < 2 ^ 63
    → (m' : Message) × SameMessage m m'
      × (publish_http sort refused post addr topic m ≡ some (publish table topic s m').0)
unfolding publish_http
publish_http-publish sort refused addr topic post table s m arrives p distinct small fits =
    let (bytes, m', written, read, same) = unmarshal-marshal sort m p distinct small fits in
    (
      m',
      same,
      ap
            (Option.map (λ bytes.
              publish_error refused (post (codes "http://" ++ (addr ++ (b'/' ∷ topic))) bytes)))
            written
          ∙ ap (λ r. some (publish_error refused r)) (arrives bytes)
          ∙ ap some (publish_error-publish refused topic s table bytes m' read),
    )
