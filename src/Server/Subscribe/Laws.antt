-- ===== src/Server/Subscribe/Laws.antt =====
-- The two handlers agree, and an error is reported once.
use kuja.Prelude.{ℕ, ◌≡◌, ◌⊎◌, inl, inr, refl, sym, Option, none, some, List, [], ◌∷◌, Str}
use kuja.Prelude.Dict.{Dict}
use kuja.Broker.Message.{Message}
use kuja.Broker.Delivery.{Settlement, retry_loop}
use kuja.Broker.Delivery.Retries.{LeavesRetry, Counted, retry_loop-Counted}
use mathlib.Core.Path.{subst}
use kuja.Server.Subscribe.{
  SubscribeContext, SubReport, Decoded, bad, good, Answer, Subscriber, context_of, returned,
  responded, sub_response, handle_decoded, timeout_decoded, subscribe_handler, subscribe_timeout,
  as_handler,
}

returned-responded :
    (m : Message) (ctx : SubscribeContext) (e : Option Str)
    → responded m ctx (sub_response ctx e) ≡ returned m ctx e
returned-responded m ctx none = refl
returned-responded m ctx (some e) = refl

-- Either no error, no retry and no report, or an error and one report.
abbrev pub ReportsOnce : Answer → Type 0
ReportsOnce a =
    ((a.error ≡ none) × (a.retry ≡ 0) × (a.reports ≡ []))
    ⊎ ((e : Str) × (r : SubReport) × (a.error ≡ some e) × (a.reports ≡ r ∷ []))

returned-ReportsOnce :
    (m : Message) (ctx : SubscribeContext) (e : Option Str) → ReportsOnce (returned m ctx e)
returned-ReportsOnce m ctx none = inl (refl, refl, refl)
returned-ReportsOnce m ctx (some e) = inr (e, _, refl, refl)

module _ {Data : Type 0} (s : Subscriber Data) (m : Message) where
  timeout-handle : (d : Decoded Data) → timeout_decoded s m none d ≡ handle_decoded s m d
  timeout-handle (bad e) = refl
  timeout-handle (good d) =
      let r = s.method (context_of s m) d in
      returned-responded (record m { header = r.header }) r.context r.error

  handle_decoded-ReportsOnce : (d : Decoded Data) → ReportsOnce (handle_decoded s m d)
  handle_decoded-ReportsOnce (bad e) = inr (e, _, refl, refl)
  handle_decoded-ReportsOnce (good d) =
      let r = s.method (context_of s m) d in
      returned-ReportsOnce (record m { header = r.header }) r.context r.error

  timeout_decoded-ReportsOnce :
      (late : Option (SubscribeContext × Option (Dict Str))) (d : Decoded Data)
      → ReportsOnce (timeout_decoded s m late d)
  timeout_decoded-ReportsOnce late (bad e) = inr (e, _, refl, refl)
  timeout_decoded-ReportsOnce none (good d) =
      subst ReportsOnce (sym (timeout-handle (good d))) (handle_decoded-ReportsOnce (good d))
  timeout_decoded-ReportsOnce (some (ctx, header)) (good d) = inr (_, _, refl, refl)

  returned-retry :
      (ctx : SubscribeContext) (header : Option (Dict Str)) (e : Option Str)
      → (returned (record m { header = header }) ctx e).msg.retry ≡ m.retry
  returned-retry ctx header none = refl
  returned-retry ctx header (some e) = refl

  handle_decoded-retry : (d : Decoded Data) → (handle_decoded s m d).msg.retry ≡ m.retry
  handle_decoded-retry (bad e) = refl
  handle_decoded-retry (good d) =
      let r = s.method (context_of s m) d in returned-retry r.context r.header r.error

module _ {Data : Type 0} (decode : Option Str → Decoded Data) (s : Subscriber Data) where
  -- Where the method answers in time, the handler with a time out does what the one without does.
  pub subscribe_timeout-none :
      (m : Message) → subscribe_timeout decode s m none ≡ subscribe_handler decode s m
  unfolding subscribe_timeout subscribe_handler
  subscribe_timeout-none m = timeout-handle s m (decode m.body)

  -- Whether the method answers in time or not, the handler returns no error, asks for no retry and
  -- calls the hook not at all, or it returns an error and calls the hook exactly once.
  pub subscribe_timeout-ReportsOnce :
      (m : Message) (late : Option (SubscribeContext × Option (Dict Str)))
      → ReportsOnce (subscribe_timeout decode s m late)
  unfolding subscribe_timeout
  subscribe_timeout-ReportsOnce m late = timeout_decoded-ReportsOnce s m late (decode m.body)

  as_handler-LeavesRetry : LeavesRetry (as_handler decode s)
  unfolding subscribe_handler
  as_handler-LeavesRetry state topic m = handle_decoded-retry s m (decode m.body)

  -- The retries that a broker makes of a subscriber's handler have the counts that follow the
  -- message's, one by one.
  pub retry_loop-as_handler :
      (won : List Settlement) (topic : Str) (n : ℕ) (m : Message)
      → Counted won
          (as_handler decode s)
          topic
          m.retry
          (retry_loop won (as_handler decode s) topic n tt m)
  retry_loop-as_handler won topic n m =
      retry_loop-Counted won (as_handler decode s) topic n tt m as_handler-LeavesRetry
