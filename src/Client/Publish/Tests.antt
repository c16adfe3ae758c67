-- ===== src/Client/Publish/Tests.antt =====
-- A message from a client to a subscriber that keeps what it gets.
use kuja.Prelude.{◌<◌, ◌^◌, ◌≡◌, refl, arith, Option, none, some, [], ◌∷◌, Str, codes}
use kuja.Prelude.Dict.{Dict, lookup}
use kuja.Broker.Message.{Message, entries}
use kuja.Broker.Message.Size.{size, sov_message, map_entry_size, header_size}
use kuja.Broker.Delivery.{rabbit_receive, rabbit_deliver}
use kuja.Broker.Publish.{new_message, sent, publish_message}
use kuja.Server.Rpc.{GoError, value}
use kuja.Server.Subscribe.{
  Subscriber, Decoded, bad, good, handle_decoded, subscribe_handler, as_handler,
}
use kuja.Client.Publish.{publish, rabbit_receive-publish}
use mathlib.Core.List.Perm

abbrev text_of : Option Str → Decoded Str
text_of none = bad (codes "no body")
text_of (some s) = good s

abbrev taking : Subscriber Str
taking = record {
  topic = codes "t";
  queue = codes "q";
  method = λ ctx d. record { error = none; context = ctx; header = ctx.metadata };
}

abbrev token : Option (Dict Str)
token = some ((codes "k", codes "v") ∷ [])

abbrev open_exchange : Str → Str → Option GoError
open_exchange topic bytes = none

news_fits : size (new_message (codes "a1") token (some (codes "hi"))) < 2 ^ 63
unfolding size sov_message map_entry_size header_size
news_fits = omega arith

rabbit_receive-publish_example :
    (bytes : Str) × (m : Message) × (publish
        (λ v. value v)
        (codes "a1")
        (some (publish_message (λ ks. ks) open_exchange))
        (codes "t")
        (codes "hi")
        token
      ≡ sent (codes "t") bytes none)
    × (rabbit_receive (as_handler text_of taking) (codes "t") bytes tt
        ≡ some (rabbit_deliver (as_handler text_of taking) (codes "t") tt m))
    × (subscribe_handler text_of taking m ≡ handle_decoded taking m (good (codes "hi")))
    × (m.id ≡ codes "a1")
    × (m.retry ≡ 0)
    × ((k : Str) → lookup k (entries m.header) ≡ lookup k (entries token))
rabbit_receive-publish_example =
    rabbit_receive-publish (λ v. value v) text_of (λ ks. ks) open_exchange taking (codes "a1")
      (codes "t") (codes "hi") token (codes "hi") (codes "hi") refl refl (Perm.refl _) (tt, tt)
      news_fits
