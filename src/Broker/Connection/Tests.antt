-- ===== src/Broker/Connection/Tests.antt =====
-- A rabbitmq broker with one subscription, and an http broker that is connected twice.
use kuja.Prelude.{◌≡◌, refl, pos, true, false, none, some, [], ◌∷◌, codes}
use kuja.Broker.Connection.{
  Amqp, Rabbit, finished, closes_channel, closes_connection, close_rabbit, connect_rabbit,
  subscribe_rabbit, Rabbits, made, connected, subscribed, connects, closes, run_calls,
  subscribe_nats,
}
use kuja.Broker.Connection.Laws.{Rabbits-close_rabbit, closed_listener, run_calls-closed}

abbrev working : Amqp
working = record { dial = none; channel = none; queue_declare = λ q. q }

abbrev consuming : Rabbit
consuming = record { has_conn = true; ch = some 0; ch_consumes = []; next = 2 }

consuming-Rabbits : Rabbits consuming
unfolding connect_rabbit subscribe_rabbit
consuming-Rabbits =
    subscribed working (codes "t") (codes "q") (pos 3) none _ (connected working none _ made refl)
      refl

Rabbits-close_rabbit_example :
    close_rabbit consuming ≡ finished none consuming (closes_channel 0 ∷ closes_connection ∷ [])
Rabbits-close_rabbit_example = Rabbits-close_rabbit 0 consuming-Rabbits refl refl

run_calls-closed_example :
    run_calls
      (connects none ∷ closes ∷ connects none ∷ [])
      (record { is_set = false; is_open = false })
    ≡ some (none ∷ none ∷ [], closed_listener)
run_calls-closed_example = run_calls-closed (connects none ∷ [])

nobody : subscribe_nats true (codes "t") (codes "q") (pos 0) ≡ some []
unfolding subscribe_nats
nobody = refl
