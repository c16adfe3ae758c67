-- ===== src/Broker/Delivery/Retries.antt =====
-- The retries of a delivery: how many there are, their counts, and how the delivery is settled.
use mathlib.Core.Path.{subst}
use kuja.Prelude.{ℕ, zero, suc, ◌+◌, ◌%◌, ◌^◌, ◌<◌, ◌≡◌, refl, ap, sym, ◌∙◌, arith, true, false}
use kuja.Prelude.{none, some, List, [], ◌∷◌, ◌++◌, map, length, Str, Option-cases, inl, inr, ◌⊎◌}
use kuja.Broker.Message.{Message}
use kuja.Broker.Delivery.{
  BrokerHandler, Handled, Delivery, Settlement, ack, reject, bump, after_try, retry_loop,
  rabbit_deliver, then_settle,
}

-- The counts `r + 1`, `r + 2` and so on, `n` of them, as an int32 takes them.
abbrev pub counts : ℕ → ℕ → List ℕ
counts zero r = []
counts (suc n) r = (r + 1) % 2 ^ 32 ∷ counts n ((r + 1) % 2 ^ 32)

abbrev pub retries : List Message → List ℕ
retries = map (λ m. m.retry)

module _ {S : Type 0} where
  -- A handler that leaves the retry count of its message alone, as those of `Server.Subscribe` do.
  abbrev pub LeavesRetry : BrokerHandler S → Type 0
  LeavesRetry h = (s : S) (topic : Str) (m : Message) → (h s topic m).msg.retry ≡ m.retry

  module _ (won : List Settlement) (h : BrokerHandler S) (topic : Str) where
    retry_won :
        (n : ℕ) (s : S) (m : Message)
        → (h s topic (bump m)).error ≡ none
        → retry_loop won h topic (suc n) s m ≡ record {
          state = (h s topic (bump m)).state;
          msg = (h s topic (bump m)).msg;
          tried = bump m ∷ [];
          succeeded = true;
          settled = won;
        }
    unfolding retry_loop
    retry_won n s m e = rw (e, retry_loop)

    retry_again :
        (n : ℕ) (s : S) (m : Message) (text : Str)
        → (h s topic (bump m)).error ≡ some text
        → retry_loop won h topic (suc n) s m
          ≡ after_try
              (bump m)
              (retry_loop won h topic n (h s topic (bump m)).state (h s topic (bump m)).msg)
    unfolding retry_loop
    retry_again n s m text e = rw (e, retry_loop)

    -- So many calls in a row return an error, each with the retry count one up, and leave a state and
    -- a message.
    pub data Failing : ℕ → S → Message → S → Message → Type 0 where
      none_failed : {s : S} {m : Message} → Failing 0 s m s m
      failed :
          {n : ℕ} {s s' : S} {m m' : Message} (text : Str)
          → (h s topic (bump m)).error ≡ some text
          → Failing n (h s topic (bump m)).state (h s topic (bump m)).msg s' m'
          → Failing (suc n) s m s' m'

    -- Behind `k` calls that fail, the next one returns no error.
    pub record SucceedsAfter (k : ℕ) (s : S) (m : Message) : Type 0 where
      pub state : S
      pub msg : Message
      pub before : Failing k s m state msg
      pub wins : (h state topic (bump msg)).error ≡ none

    pub record AllFail (n : ℕ) (s : S) (m : Message) : Type 0 where
      pub state : S
      pub msg : Message
      pub all : Failing n s m state msg

    -- How the loop ends: behind `k` calls that fail one of at most `n` calls returns no error, and the
    -- delivery is settled as `won` says, or all of `n` calls fail, and it is not settled.
    abbrev pub Ends : ℕ → S → Message → Delivery S → Type 0
    Ends n s m d =
        ((k : ℕ) × SucceedsAfter k s m
          × (k < n)
          × (d.succeeded ≡ true)
          × (d.settled ≡ won)
          × (length d.tried ≡ suc k))
        ⊎ (AllFail n s m × (d.succeeded ≡ false) × (d.settled ≡ []) × (length d.tried ≡ n))

    Ends-after_try :
        (n : ℕ) (s : S) (m : Message) (text : Str) (d : Delivery S)
        → (h s topic (bump m)).error ≡ some text
        → Ends n (h s topic (bump m)).state (h s topic (bump m)).msg d
        → Ends (suc n) s m (after_try (bump m) d)
    Ends-after_try n s m text d e (inl (k, after, few, a, b, c)) = inl (
      suc k,
      record {
        state = after.state;
        msg = after.msg;
        before = failed text e after.before;
        wins = after.wins;
      },
      omega arith,
      a,
      b,
      ap suc c,
    )
    Ends-after_try n s m text d e (inr (rest, a, b, c)) = inr (
      record { state = rest.state; msg = rest.msg; all = failed text e rest.all },
      a,
      b,
      ap suc c,
    )

    -- The retry loop ends in one of two ways. Some call returns no error after fewer than `n` that
    -- return one: it is the last call, and the delivery is settled as `won` says. Or all of `n` calls
    -- return an error, and the delivery is not settled.
    pub retry_loop-Ends : (n : ℕ) (s : S) (m : Message) → Ends n s m (retry_loop won h topic n s m)
    unfolding retry_loop
    retry_loop-Ends zero s m =
        inr (record { state = s; msg = m; all = none_failed }, refl, refl, refl)
    retry_loop-Ends (suc n) s m = elim (Option-cases (h s topic (bump m)).error) [
      | inl succeeded ↦
          let first : SucceedsAfter 0 s m = record {
            state = s;
            msg = m;
            before = none_failed;
            wins = succeeded;
          } in
          subst (Ends (suc n) s m) (sym (retry_won n s m succeeded))
            (inl (0, first, omega arith, refl, refl, refl))
      | inr (text, e) ↦
          let r = h s topic (bump m) in
          subst (Ends (suc n) s m) (sym (retry_again n s m text e)) (
            Ends-after_try n s m text (retry_loop won h topic n r.state r.msg) e
              (retry_loop-Ends n r.state r.msg))
    ]

    abbrev pub Counted : ℕ → Delivery S → Type 0
    Counted r d = retries d.tried ≡ counts (length d.tried) r

    -- With a handler that leaves the retry count alone, the calls of the retry loop have the counts
    -- that follow the message's, one by one.
    pub retry_loop-Counted :
        (n : ℕ) (s : S) (m : Message)
        → LeavesRetry h
        → Counted m.retry (retry_loop won h topic n s m)
    unfolding retry_loop
    retry_loop-Counted zero s m leaves = refl
    retry_loop-Counted (suc n) s m leaves = elim (Option-cases (h s topic (bump m)).error) [
      | inl won_now ↦ subst (Counted m.retry) (sym (retry_won n s m won_now)) refl
      | inr (text, e) ↦
          let r = h s topic (bump m) in
          let rest = retry_loop won h topic n r.state r.msg in
          let inner = retry_loop-Counted n r.state r.msg leaves in
          subst (Counted m.retry) (sym (retry_again n s m text e)) (
            ap (λ rs. (bump m).retry ∷ rs)
              (inner ∙ ap (counts (length rest.tried)) (leaves s topic (bump m))))
    ]

  module _ (h : BrokerHandler S) (topic : Str) (s : S) (m : Message) where
    -- What the rabbitmq consumer does where the first call returns an error and asks for `n` retries:
    -- where one of them returns no error, the delivery is acknowledged and then rejected as well;
    -- where all return one, it is rejected.
    abbrev pub SettledAfter : ℕ → S → Message → Delivery S → Type 0
    SettledAfter n s' m' d =
        ((k : ℕ) × SucceedsAfter (ack ∷ []) h topic k s' m'
          × (k < n)
          × (d.settled ≡ ack ∷ reject ∷ [])
          × (length d.tried ≡ suc (suc k)))
        ⊎ (AllFail (ack ∷ []) h topic n s' m'
            × (d.settled ≡ reject ∷ [])
            × (length d.tried ≡ suc n))

    -- How a delivery is settled, by the error of the first call.
    abbrev pub Settled : Handled S → Delivery S → Type 0
    Settled r d =
        ((r.error ≡ none) × (d.settled ≡ ack ∷ []) × (d.tried ≡ m ∷ []))
        ⊎ ((text : Str) × (r.error ≡ some text) × SettledAfter r.retry r.state r.msg d)

    settle-reject :
        (n : ℕ) (s' : S) (m' : Message) (d : Delivery S)
        → Ends (ack ∷ []) h topic n s' m' d
        → SettledAfter n s' m' (then_settle reject (after_try m d))
    settle-reject n s' m' d (inl (k, after, few, won, settled, count)) =
        inl (k, after, few, ap (λ xs. xs ++ (reject ∷ [])) settled, ap suc count)
    settle-reject n s' m' d (inr (rest, lost, settled, count)) =
        inr (rest, ap (λ xs. xs ++ (reject ∷ [])) settled, ap suc count)

    rabbit_acks :
        (h s topic m).error ≡ none
        → rabbit_deliver h topic s m ≡ record {
          state = (h s topic m).state;
          msg = (h s topic m).msg;
          tried = m ∷ [];
          succeeded = true;
          settled = ack ∷ [];
        }
    unfolding rabbit_deliver
    rabbit_acks e = rw (e, rabbit_deliver)

    rabbit_retries :
        (text : Str)
        → (h s topic m).error ≡ some text
        → rabbit_deliver h topic s m
          ≡ then_settle reject (
              after_try m (
                retry_loop
                  (ack ∷ [])
                  h
                  topic
                  (h s topic m).retry
                  (h s topic m).state
                  (h s topic m).msg))
    unfolding rabbit_deliver
    rabbit_retries text e = rw (e, rabbit_deliver)

    -- Where the first call returns no error, the rabbitmq consumer acknowledges the delivery and
    -- calls the handler once. Where it returns one, the consumer retries as often as the call asked
    -- for: where a retry returns no error it is the last, and the delivery is acknowledged and then
    -- rejected; where all return one, the delivery is rejected.
    pub rabbit_deliver-Settled : Settled (h s topic m) (rabbit_deliver h topic s m)
    rabbit_deliver-Settled =
        let r = h s topic m in
        elim (Option-cases (h s topic m).error) [
          | inl succeeded ↦
              subst (Settled r) (sym (rabbit_acks succeeded)) (inl (succeeded, refl, refl))
          | inr (text, e) ↦ subst (Settled r) (sym (rabbit_retries text e)) (
              inr (
                text,
                e,
                settle-reject r.retry r.state r.msg
                    (retry_loop (ack ∷ []) h topic r.retry r.state r.msg)
                    (retry_loop-Ends (ack ∷ []) h topic r.retry r.state r.msg),
              ))
        ]
