-- ===== src/Server/Subscribe.antt =====
-- sub.go: the handlers that `Subscribe` makes of a method, and `Reject`.
pub mod Laws
mod Tests
use kuja.Prelude.{ℤ, pos, negsuc, ℕ, zero, suc, Bool, Option, none, some, List, [], ◌∷◌, Str, codes}
use kuja.Prelude.Dict.{Dict}
use kuja.Broker.Message.{Message}
use kuja.Broker.Delivery.{BrokerHandler}

-- `retry` is set to positive numbers only.
pub record SubscribeContext : Type 0 where
  pub id : Str
  pub topic : Str
  pub queue : Str
  pub metadata : Option (Dict Str)
  pub retry : ℕ

abbrev pub or_rejected : Option Str → Str
or_rejected none = codes "rejected"
or_rejected (some e) = e

-- `SubscribeContext.Reject`
unfoldable pub reject_with : ℤ → Option Str → SubscribeContext → Str × SubscribeContext
reject_with (pos zero) e ctx = (or_rejected e, ctx)
reject_with (pos (suc n)) e ctx = (or_rejected e, record ctx { retry = suc n })
reject_with (negsuc n) e ctx = (or_rejected e, ctx)

-- What a method of a subscriber leaves: its error, the context, and the entries of the message's
-- header, which the context shares.
pub record Ran : Type 0 where
  pub error : Option Str
  pub context : SubscribeContext
  pub header : Option (Dict Str)

-- A call of the hook `subscriberError`.
pub record SubReport : Type 0 where
  pub id : Str
  pub topic : Str
  pub queue : Str
  pub error : Str

pub data Decoded (Data : Type 0) : Type 0 where
  bad : Str → Decoded Data
  good : Data → Decoded Data

-- What a handler returns: the message, the number of retries, the error, and the calls of the hook.
pub record Answer : Type 0 where
  pub msg : Message
  pub retry : ℕ
  pub error : Option Str
  pub reports : List SubReport

pub record Subscriber (Data : Type 0) : Type 0 where
  pub topic : Str
  pub queue : Str
  pub method : SubscribeContext → Data → Ran

abbrev pub report_of : SubscribeContext → Str → SubReport
report_of ctx e = record { id = ctx.id; topic = ctx.topic; queue = ctx.queue; error = e }

-- `if errInter != nil`
abbrev pub returned : Message → SubscribeContext → Option Str → Answer
returned m ctx none = record { msg = m; retry = 0; error = none; reports = [] }
returned m ctx (some e) = record {
  msg = m;
  retry = ctx.retry;
  error = some e;
  reports = report_of ctx e ∷ [];
}

abbrev pub sub_response : SubscribeContext → Option Str → ℕ × Option Str
sub_response ctx none = (0, none)
sub_response ctx (some e) = (ctx.retry, some e)

abbrev pub reports_of : SubscribeContext → Option Str → List SubReport
reports_of ctx none = []
reports_of ctx (some e) = report_of ctx e ∷ []

-- The case of the select that receives the response.
abbrev pub responded : Message → SubscribeContext → ℕ × Option Str → Answer
responded m ctx (n, e) = record { msg = m; retry = n; error = e; reports = reports_of ctx e }

module _ {Data : Type 0} where
  abbrev pub context_of : Subscriber Data → Message → SubscribeContext
  context_of s m = record {
    id = m.id;
    topic = s.topic;
    queue = s.queue;
    metadata = m.header;
    retry = 0;
  }

  abbrev pub failed_decode : Subscriber Data → Message → Str → Answer
  failed_decode s m e = record {
    msg = m;
    retry = 0;
    error = some e;
    reports = report_of (context_of s m) e ∷ [];
  }

  abbrev pub handle_decoded : Subscriber Data → Message → Decoded Data → Answer
  handle_decoded s m (bad e) = failed_decode s m e
  handle_decoded s m (good d) =
      let r = s.method (context_of s m) d in
      returned (record m { header = r.header }) r.context r.error

  -- `late` tells how the select ends: with the response, or with the time out, and then with the
  -- context and the header as the method had left them by then.
  abbrev pub timeout_decoded :
      Subscriber Data
      → Message
      → Option (SubscribeContext × Option (Dict Str))
      → Decoded Data
      → Answer
  timeout_decoded s m late (bad e) = failed_decode s m e
  timeout_decoded s m none (good d) =
      let r = s.method (context_of s m) d in
      responded (record m { header = r.header }) r.context (sub_response r.context r.error)
  timeout_decoded s m (some (ctx, header)) (good d) = record {
    msg = record m { header = header };
    retry = 0;
    error = some (codes "timeout");
    reports = report_of ctx (codes "time out") ∷ [];
  }

  -- `subscribe`. `decode` is `Unmarshal` of the server's encoder, into a new value of the method's
  -- data type.
  unfoldable pub subscribe_handler :
      (Option Str → Decoded Data) → Subscriber Data → Message → Answer
  subscribe_handler decode s m = handle_decoded s m (decode m.body)

  -- `subscribeTimeout`
  unfoldable pub subscribe_timeout :
      (Option Str → Decoded Data)
      → Subscriber Data
      → Message
      → Option (SubscribeContext × Option (Dict Str))
      → Answer
  subscribe_timeout decode s m late = timeout_decoded s m late (decode m.body)

  -- The handler as a broker calls it, for a method that keeps no state.
  abbrev pub as_handler : (Option Str → Decoded Data) → Subscriber Data → BrokerHandler Unit
  as_handler decode s state topic m =
      let a = subscribe_handler decode s m in
      record { state = state; msg = a.msg; retry = a.retry; error = a.error }
