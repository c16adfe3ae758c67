-- ===== src/Broker/Connection.antt =====
-- The connections of broker/rabbitmq/rabbitmq.go, broker/nats/nats.go and broker/http/http.go: Connect,
-- Close, and the calls that Subscribe makes. The results of the packages amqp, nats and net are
-- parameters.
pub mod Laws
mod Tests
use kuja.Prelude.{
  ◌≡◌, ℕ, zero, suc, ℤ, pos, negsuc, Bool, true, false, Option, none, some, List, [], ◌∷◌, ◌++◌,
  map, replicate, Str,
}

-- The calls on an amqp connection. Channels are numbered in the order in which they are opened;
-- `starts` are the goroutines that range over what a channel consumes.
pub data AmqpCall : Type 0 where
  dials closes_connection : AmqpCall
  opens closes_channel : ℕ → AmqpCall
  qos starts : ℕ → ℤ → AmqpCall
  declares_exchange declares_queue consumes : ℕ → Str → AmqpCall
  binds : ℕ → Str → Str → AmqpCall

-- The errors of Dial and of Channel, and the name of the queue that QueueDeclare returns, which is
-- empty where it fails.
pub record Amqp : Type 0 where
  pub dial : Option Str
  pub channel : Option Str
  pub queue_declare : Str → Str

-- `next` is the number of the next channel.
pub record Rabbit : Type 0 where
  pub has_conn : Bool
  pub ch : Option ℕ
  pub ch_consumes : List ℕ
  pub next : ℕ

-- An operation ends with an error or nil, the broker and its calls, or with a nil pointer.
pub data RabbitRun : Type 0 where
  finished : Option Str → Rabbit → List AmqpCall → RabbitRun
  nil_pointer : RabbitRun

abbrev pub new_rabbit : Rabbit
new_rabbit = record { has_conn = false; ch = none; ch_consumes = []; next = 0 }

abbrev pub open_channel : Rabbit → Option Str → RabbitRun
open_channel r (some e) = finished (some e) (record r { has_conn = true; ch = none }) (dials ∷ [])
open_channel r none =
    finished none (record r { has_conn = true; ch = some r.next; next = suc r.next })
      (dials ∷ opens r.next ∷ qos r.next (pos 1) ∷ [])

abbrev pub after_dial : Amqp → Rabbit → Option Str → RabbitRun
after_dial x r (some e) = finished (some e) (record r { has_conn = false }) (dials ∷ [])
after_dial x r none = open_channel r x.channel

unfoldable pub connect_rabbit : Amqp → Rabbit → RabbitRun
connect_rabbit x r = after_dial x r x.dial

-- From `ch.Qos` on. The errors of the calls are dropped.
abbrev pub consume_on : Amqp → Str → Str → ℤ → Rabbit → Option Str → RabbitRun
consume_on x topic queue size r (some e) = nil_pointer
consume_on x topic queue size r none =
    let name = x.queue_declare queue in
    finished none (record r { next = suc r.next })
      (opens r.next
        ∷ qos r.next size
        ∷ declares_exchange r.next topic
        ∷ declares_queue r.next queue
        ∷ binds r.next name topic
        ∷ consumes r.next name
        ∷ starts r.next size
        ∷ [])

abbrev pub subscribe_if : Bool → Amqp → Str → Str → ℤ → Rabbit → RabbitRun
subscribe_if false x topic queue size r = nil_pointer
subscribe_if true x topic queue size r = consume_on x topic queue size r x.channel

unfoldable pub subscribe_rabbit : Amqp → Str → Str → ℤ → Rabbit → RabbitRun
subscribe_rabbit x topic queue size r = subscribe_if r.has_conn x topic queue size r

abbrev pub close_all : Rabbit → Option ℕ → Bool → RabbitRun
close_all r none b = nil_pointer
close_all r (some c) false = nil_pointer
close_all r (some c) true =
    finished none r
      (closes_channel c ∷ (map closes_channel r.ch_consumes ++ (closes_connection ∷ [])))

unfoldable pub close_rabbit : Rabbit → RabbitRun
close_rabbit r = close_all r r.ch r.has_conn

-- The broker of an operation that ends, from any state that operations have led to.
pub data Rabbits : Rabbit → Type 0 where
  made : Rabbits new_rabbit
  connected :
      {r s : Rabbit} (x : Amqp) (e : Option Str) (cs : List AmqpCall)
      → Rabbits r
      → connect_rabbit x r ≡ finished e s cs
      → Rabbits s
  subscribed :
      {r s : Rabbit} (x : Amqp) (topic queue : Str) (size : ℤ) (e : Option Str) (cs : List AmqpCall)
      → Rabbits r
      → subscribe_rabbit x topic queue size r ≡ finished e s cs
      → Rabbits s
  closed :
      {r s : Rabbit} (e : Option Str) (cs : List AmqpCall)
      → Rabbits r
      → close_rabbit r ≡ finished e s cs
      → Rabbits s

-- `for i := 0; i < size; i++`
abbrev pub rounds : ℤ → ℕ
rounds (pos n) = n
rounds (negsuc n) = 0

-- The topics and queues that the nats broker subscribes to; without a connection it panics where it
-- subscribes at all.
abbrev pub subscribe_times : Bool → Str → Str → ℕ → Option (List (Str × Str))
subscribe_times has_conn topic queue zero = some []
subscribe_times false topic queue (suc n) = none
subscribe_times true topic queue (suc n) = some (replicate (suc n) (topic, queue))

unfoldable pub subscribe_nats : Bool → Str → Str → ℤ → Option (List (Str × Str))
subscribe_nats has_conn topic queue size = subscribe_times has_conn topic queue (rounds size)

-- The http broker: whether `listen` is set, and whether the listener is open.
pub record Listener : Type 0 where
  pub is_set : Bool
  pub is_open : Bool

-- `Connect`, with the error of net.Listen, and `Close`.
pub data ListenerCall : Type 0 where
  connects : Option Str → ListenerCall
  closes : ListenerCall

abbrev pub listen : Bool → Option Str → Listener → Option Str × Listener
listen true e s = (none, s)
listen false (some e) s = (some e, s)
listen false none s = (none, record { is_set = true; is_open = true })

unfoldable pub connect_http : Option Str → Listener → Option Str × Listener
connect_http e s = listen s.is_set e s

-- A listener that is nil panics.
abbrev pub close_if : Bool → Listener → Option Listener
close_if false s = none
close_if true s = some (record s { is_open = false })

unfoldable pub close_http : Listener → Option Listener
close_http s = close_if s.is_set s

-- A sequence of calls: the results of `Connect`, and the listener, or a panic.
abbrev pub add_result :
    Option Str → Option (List (Option Str) × Listener) → Option (List (Option Str) × Listener)
add_result e none = none
add_result e (some (es, s)) = some (e ∷ es, s)

unfoldable pub run_calls : List ListenerCall → Listener → Option (List (Option Str) × Listener)
unfolding connect_http close_http
run_calls [] s = some ([], s)
run_calls (connects e ∷ cs) s = add_result (connect_http e s).0 (run_calls cs (connect_http e s).1)
run_calls (closes ∷ cs) s = elim (close_http s) [ none ↦ none | some s' ↦ run_calls cs s' ]
