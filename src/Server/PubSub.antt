-- ===== src/Server/PubSub.antt =====
-- sub.go: `registerSub` and `ServePubSub`.
pub mod Laws
mod Tests
use kuja.Prelude.{
  Bool, true, false, not, ◌&&◌, ◌||◌, if◌then◌else◌, Option, none, some, List, [], ◌∷◌, ◌++◌, Str,
  codes, str_eq, has_prefix,
}
use kuja.Prelude.Dict.{Dict, insert}
use kuja.Broker.Message.{Message, blank, Outcome, Error, ok, err, panic, stuck}
use kuja.Broker.Message.Unmarshal.{unmarshal}
use kuja.Broker.Delivery.{BrokerHandler, Published}
use kuja.Server.Register.{GoType, is_error, is_pointer, is_exported_or_builtin}

-- A function that is subscribed, by the types of its arguments and results.
pub record SubMethod : Type 0 where
  pub ins : List GoType
  pub outs : List GoType

-- `is_upper` is as in `register`; `type_string` is the `String` of a reflect.Type.
module _ (is_upper : Str → Bool) (type_string : GoType → Str) where
  unfoldable pub is_subscriber_types : List GoType → List GoType → Bool
  is_subscriber_types (ctx ∷ data_type ∷ []) (result ∷ []) =
      is_pointer data_type
      && (is_exported_or_builtin is_upper data_type
          && (str_eq (type_string ctx) (codes "*kuja.SubscribeContext") && is_error result))
  is_subscriber_types ins outs = false

  -- A function of another type is logged and not registered; no error is returned.
  unfoldable pub register_sub :
      {S : Type 0}
      → Str
      → Str
      → SubMethod
      → BrokerHandler S
      → Dict (BrokerHandler S)
      → Dict (BrokerHandler S)
  register_sub topic queue method h table =
      if is_subscriber_types method.ins method.outs
      then insert (topic ++ codes "." ++ queue) h table
      else table

  -- `Subscribe`: an empty topic or queue ends the process; `registerSub` returns no error.
  unfoldable pub subscribe_or_exit :
      {S : Type 0}
      → Str
      → Str
      → SubMethod
      → BrokerHandler S
      → Dict (BrokerHandler S)
      → Option (Dict (BrokerHandler S))
  unfolding register_sub
  subscribe_or_exit topic queue method h table =
      if str_eq topic [] || str_eq queue []
      then none
      else some (register_sub topic queue method h table)

-- What `ServePubSub` ends with; `aborts` is a panic of `Unmarshal`.
pub data Served (S : Type 0) : Type 0 where
  bad_message : Error → Served S
  handled : Published S → Served S
  aborts : Served S

module _ {S : Type 0} where
  -- The range over the subscribers, which ends at the first error.
  unfoldable pub serve_matching : Str → Dict (BrokerHandler S) → S → Message → Published S
  serve_matching topic [] s m = (none, s, m)
  serve_matching topic ((key, h) ∷ table) s m =
      let r = h s topic m in
      let rest = serve_matching topic table in
      if has_prefix key topic
      then elim r.error [ none ↦ rest r.state r.msg | some e ↦ (some e, r.state, r.msg) ]
      else rest s m

  abbrev pub serve_message : Str → Dict (BrokerHandler S) → S → Outcome Unit → Served S
  serve_message topic table s (ok r m) = handled (serve_matching topic table s m)
  serve_message topic table s (err e m) = bad_message e
  serve_message topic table s panic = aborts
  serve_message topic table s stuck = aborts

  unfoldable pub serve_pub_sub : Str → Dict (BrokerHandler S) → S → Str → Served S
  serve_pub_sub topic table s bytes = serve_message topic table s (unmarshal bytes blank)
