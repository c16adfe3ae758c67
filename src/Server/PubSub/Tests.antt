-- ===== src/Server/PubSub/Tests.antt =====
-- A message of the topic "news" also reaches a subscriber of the topic "newsletter".
use kuja.Prelude.{ℕ, suc, ◌≡◌, none, [], ◌∷◌, codes}
use kuja.Prelude.Dict.{Dict}
use kuja.Broker.Message.{blank}
use kuja.Broker.Delivery.{BrokerHandler, publish_all}
use kuja.Server.PubSub.{serve_matching, SubMethod, is_subscriber_types, register_sub}
use kuja.Server.Register.{GoType, pointer, named, is_pointer, is_exported_or_builtin, is_error}
use kuja.Server.Register.Tests.{ascii_upper}
use kuja.Prelude.{str_eq, refl, Str, ◌++◌}
use kuja.Server.PubSub.Laws.{matching, serve_matching-publish_all, register_sub-replaces}

abbrev counting : BrokerHandler ℕ
counting n topic m = record { state = suc n; msg = m; retry = 0; error = none }

abbrev two_topics : Dict (BrokerHandler ℕ)
two_topics = (codes "newsletter.q", counting) ∷ (codes "other.q", counting) ∷ []

serve_matching-publish_all_example :
    serve_matching (codes "news") two_topics 0 blank
    ≡ publish_all (codes "news") (matching (codes "news") two_topics) 0 blank
serve_matching-publish_all_example = serve_matching-publish_all (codes "news") two_topics 0 blank

abbrev of_news : SubMethod
of_news = record {
  ins =
      pointer (named (codes "SubscribeContext") (codes "kuja"))
      ∷ pointer (named (codes "News") (codes "main"))
      ∷ [];
  outs = named (codes "error") [] ∷ [];
}

abbrev name_of_type : GoType → Str
name_of_type (pointer t) = codes "*kuja.SubscribeContext"
name_of_type (named name pkg) = name

register_sub-replaces_example :
    register_sub ascii_upper name_of_type
      (codes "news")
      (codes "us" ++ codes "." ++ codes "q")
      of_news
      counting
      (register_sub ascii_upper name_of_type
        (codes "news" ++ codes "." ++ codes "us")
        (codes "q")
        of_news
        counting
        [])
    ≡ register_sub ascii_upper name_of_type
        (codes "news")
        (codes "us" ++ codes "." ++ codes "q")
        of_news
        counting
        []
unfolding is_subscriber_types str_eq is_pointer is_exported_or_builtin is_error
register_sub-replaces_example =
    register_sub-replaces ascii_upper name_of_type (codes "news") (codes "us") (codes "q") of_news
      of_news counting counting [] refl refl
