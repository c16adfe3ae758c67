-- ===== src/Server/PubSub/Laws.antt =====
-- Which subscribers `ServePubSub` calls.
use kuja.Prelude.{
  ◌≡◌, refl, sym, ap, ◌∙◌, Bool, true, ◌++◌, codes, Bool-cases, inl, inr, if◌then◌else◌,
  Option-cases, [], ◌∷◌, Str, has_prefix,
}
use kuja.Prelude.Dict.{Dict, insert, insert-insert}
use kuja.Broker.Message.{Message}
use kuja.Broker.Delivery.{BrokerHandler, publish_all}
use kuja.Server.PubSub.{serve_matching, SubMethod, is_subscriber_types, register_sub}
use kuja.Server.Register.{GoType}
use mathlib.Core.List.{append_assoc}

module _ {S : Type 0} (topic : Str) where
  -- The subscribers whose key begins with the topic.
  abbrev pub matching : Dict (BrokerHandler S) → Dict (BrokerHandler S)
  matching [] = []
  matching ((key, h) ∷ table) =
      let rest = matching table in if has_prefix key topic then (key, h) ∷ rest else rest

  -- `ServePubSub` calls the subscribers whose key, the topic and the queue joined by a dot, begins
  -- with the topic of the message, in the order of the range, up to the first error.
  pub serve_matching-publish_all :
      (table : Dict (BrokerHandler S)) (s : S) (m : Message)
      → serve_matching topic table s m ≡ publish_all topic (matching table) s m
  unfolding serve_matching publish_all
  serve_matching-publish_all [] s m = refl
  serve_matching-publish_all ((key, h) ∷ table) s m = elim (Bool-cases (has_prefix key topic)) [
    | inl hit ↦ elim (Option-cases (h s topic m).error) [
      | inl fine ↦
          rw (hit, serve_matching, publish_all)
            (rw (fine) (serve_matching-publish_all table (h s topic m).state (h s topic m).msg))
      | inr (e, failed) ↦ rw (hit, serve_matching, publish_all) (rw failed)
    ]
    | inr miss ↦ rw (miss, serve_matching) (serve_matching-publish_all table s m)
  ]

-- The key of a topic with a dot in it is that of the topic before the dot, and a longer queue.
same_key :
    (t u q : Str)
    → (t ++ codes "." ++ u) ++ codes "." ++ q ≡ t ++ codes "." ++ (u ++ codes "." ++ q)
same_key t u q =
    ap (λ s. s ++ q) (append_assoc (t ++ codes ".") u (codes "."))
    ∙ append_assoc (t ++ codes ".") (u ++ codes ".") q

module _ (is_upper : Str → Bool) (type_string : GoType → Str) {S : Type 0} where
  register_sub_of_suitable :
      (topic queue : Str) (m : SubMethod) (h : BrokerHandler S) (table : Dict (BrokerHandler S))
      → is_subscriber_types is_upper type_string m.ins m.outs ≡ true
      → register_sub is_upper type_string topic queue m h table
        ≡ insert (topic ++ codes "." ++ queue) h table
  unfolding register_sub
  register_sub_of_suitable topic queue m h table is = rw is refl

  -- A subscription to a topic t with a queue u.q takes the place of one to the topic t.u with the queue
  -- q: both have the key t.u.q, and the handler of the first is lost.
  pub register_sub-replaces :
      (t u q : Str) (m n : SubMethod) (h k : BrokerHandler S) (table : Dict (BrokerHandler S))
      → is_subscriber_types is_upper type_string m.ins m.outs ≡ true
      → is_subscriber_types is_upper type_string n.ins n.outs ≡ true
      → register_sub is_upper type_string t
          (u ++ codes "." ++ q)
          n
          k
          (register_sub is_upper type_string (t ++ codes "." ++ u) q m h table)
        ≡ register_sub is_upper type_string t (u ++ codes "." ++ q) n k table
  register_sub-replaces t u q m n h k table is_m is_n =
      let key : Str = t ++ codes "." ++ (u ++ codes "." ++ q) in
      register_sub_of_suitable t (u ++ codes "." ++ q) n k
        (register_sub is_upper type_string (t ++ codes "." ++ u) q m h table) is_n
      ∙ ap (insert key k) (
          register_sub_of_suitable (t ++ codes "." ++ u) q m h table is_m
          ∙ ap (λ key. insert key h table) (same_key t u q))
      ∙ insert-insert key h k table
      ∙ sym (register_sub_of_suitable t (u ++ codes "." ++ q) n k table is_n)
