-- ===== src/Broker/Http/Tests.antt =====
-- A handler that fails, behind the http broker and the stub broker.
use kuja.Prelude.{ℕ, ◌<◌, ◌^◌, ◌≡◌, refl, arith, some, [], ◌∷◌, Str, codes}
use kuja.Broker.Message.{Message}
use kuja.Broker.Message.Size.{size, sov_message, map_entry_size, header_size}
use kuja.Broker.Message.RoundTrip.{SameMessage}
use mathlib.Core.List.Perm
use kuja.Broker.Delivery.{BrokerHandler, HandlerTable, publish}
use kuja.Broker.Http.{Response, serve_message_http, publish_http}
use kuja.Broker.Http.Laws.{publish_http-publish}

abbrev refusing : BrokerHandler ℕ
refusing n topic m = record { state = n; msg = m; retry = 0; error = some (codes "no") }

abbrev one_handler : HandlerTable ℕ
one_handler = (codes "t", (codes "q", refusing) ∷ []) ∷ []

abbrev hi : Message
hi = record {
  id = codes "1";
  header = some ((codes "k", codes "v") ∷ []);
  retry = 0;
  body = some (codes "hi");
}

hi_fits : size hi < 2 ^ 63
unfolding size sov_message map_entry_size header_size
hi_fits = omega arith

abbrev to_itself : Str → Str → Response
to_itself url bytes = serve_message_http one_handler (b'/' ∷ codes "t") bytes 0

publish_http-publish_example :
    (m' : Message) × SameMessage hi m'
    × (publish_http (λ ks. ks) (codes "refused") to_itself (codes "a:80") (codes "t") hi
        ≡ some (publish one_handler (codes "t") 0 m').0)
publish_http-publish_example =
    publish_http-publish (λ ks. ks) (codes "refused") (codes "a:80") (codes "t") to_itself
      one_handler 0 hi (λ bytes. refl) (Perm.refl _) (tt, tt) (omega arith) hi_fits
