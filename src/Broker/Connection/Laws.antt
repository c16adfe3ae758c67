-- ===== src/Broker/Connection/Laws.antt =====
-- What a broker closes, and what it does after it was closed.
use kuja.Prelude.{
  ℕ, ℤ, ◌≡◌, refl, sym, ap, ◌∙◌, Bool, true, false, Option, none, some, List, [], ◌∷◌, ◌++◌, map,
  Str,
}
use kuja.Broker.Connection.{
  AmqpCall, closes_channel, closes_connection, Amqp, Rabbit, RabbitRun, finished, nil_pointer,
  after_dial, connect_rabbit, subscribe_if, subscribe_rabbit, close_all, close_rabbit, Rabbits,
  made, connected, subscribed, closed, Listener, ListenerCall, connects, closes, add_result,
  run_calls,
}

-- A run that leaves the channels to close as they were.
abbrev Keeps : List ℕ → RabbitRun → Type 0
Keeps l (finished e s cs) = s.ch_consumes ≡ l
Keeps l nil_pointer = Unit

connect-Keeps :
    (x : Amqp) (r : Rabbit) (o c : Option Str)
    → x.channel ≡ c
    → Keeps r.ch_consumes (after_dial x r o)
connect-Keeps x r (some e) c same = refl
connect-Keeps x r none none same = rw same refl
connect-Keeps x r none (some e) same = rw same refl

subscribe-Keeps :
    (x : Amqp) (topic queue : Str) (size : ℤ) (r : Rabbit) (b : Bool) (c : Option Str)
    → x.channel ≡ c
    → Keeps r.ch_consumes (subscribe_if b x topic queue size r)
subscribe-Keeps x topic queue size r false c same = tt
subscribe-Keeps x topic queue size r true none same = rw same refl
subscribe-Keeps x topic queue size r true (some e) same = rw same tt

close-Keeps : (r : Rabbit) (o : Option ℕ) (b : Bool) → Keeps r.ch_consumes (close_all r o b)
close-Keeps r none b = tt
close-Keeps r (some c) false = tt
close-Keeps r (some c) true = refl

kept :
    (l : List ℕ) (run : RabbitRun) (e : Option Str) (s : Rabbit) (cs : List AmqpCall)
    → Keeps l run
    → run ≡ finished e s cs
    → s.ch_consumes ≡ l
kept l (finished e' s' cs') e s cs h same =
    let is : s' ≡ s = cc in ap (λ r. r.ch_consumes) (sym is) ∙ h
kept l nil_pointer e s cs h same = absurd cc

Rabbits-ch_consumes : {r : Rabbit} → Rabbits r → r.ch_consumes ≡ []
unfolding connect_rabbit subscribe_rabbit close_rabbit
Rabbits-ch_consumes made = refl
Rabbits-ch_consumes (connected {r} {s} x e cs rs h) =
    kept r.ch_consumes (connect_rabbit x r) e s cs (connect-Keeps x r x.dial x.channel refl) h
    ∙ Rabbits-ch_consumes rs
Rabbits-ch_consumes (subscribed {r} {s} x topic queue size e cs rs h) =
    kept r.ch_consumes (subscribe_rabbit x topic queue size r) e s cs
      (subscribe-Keeps x topic queue size r r.has_conn x.channel refl) h
    ∙ Rabbits-ch_consumes rs
Rabbits-ch_consumes (closed {r} {s} e cs rs h) =
    kept r.ch_consumes (close_rabbit r) e s cs (close-Keeps r r.ch r.has_conn) h
    ∙ Rabbits-ch_consumes rs

-- Whatever was connected and subscribed before, Close of a connected rabbitmq broker closes the
-- channel that it publishes on and the connection, and no channel of a subscription.
pub Rabbits-close_rabbit :
    {r : Rabbit} (c : ℕ)
    → Rabbits r
    → r.ch ≡ some c
    → r.has_conn ≡ true
    → close_rabbit r ≡ finished none r (closes_channel c ∷ closes_connection ∷ [])
unfolding close_rabbit
Rabbits-close_rabbit {r} c rs has on =
    ap (λ o. close_all r o r.has_conn) has
    ∙ ap (close_all r (some c)) on
    ∙ ap
        (λ l.
          finished none r (closes_channel c ∷ (map closes_channel l ++ (closes_connection ∷ []))))
        (Rabbits-ch_consumes rs)

abbrev pub connect_count : List ListenerCall → List (Option Str)
connect_count [] = []
connect_count (connects e ∷ cs) = none ∷ connect_count cs
connect_count (closes ∷ cs) = connect_count cs

abbrev pub closed_listener : Listener
closed_listener = record { is_set = true; is_open = false }

run_calls-closed_listener :
    (cs : List ListenerCall)
    → run_calls cs closed_listener ≡ some (connect_count cs, closed_listener)
unfolding run_calls
run_calls-closed_listener [] = refl
run_calls-closed_listener (connects e ∷ cs) = ap (add_result none) (run_calls-closed_listener cs)
run_calls-closed_listener (closes ∷ cs) = run_calls-closed_listener cs

-- After a Connect that listens and a Close, the http broker never listens again, whatever is called
-- then, and each further Connect returns nil.
pub run_calls-closed :
    (cs : List ListenerCall)
    → run_calls (connects none ∷ closes ∷ cs) (record { is_set = false; is_open = false })
      ≡ some (none ∷ connect_count cs, closed_listener)
unfolding run_calls
run_calls-closed cs = ap (add_result none) (run_calls-closed_listener cs)
