-- ===== src/Server/Lifecycle.antt =====
-- server.go: `Run` and `RunTLS`, and the start and stop of the registry, the broker and the
-- subscriptions. A range over a map goes in the order of a list, the same at the start and the stop.
pub mod Laws
pub mod Address
mod Tests
use kuja.Prelude.{
  ℤ, Bool, true, false, if◌then◌else◌, ◌==◌, Option, none, some, List, [], ◌∷◌, ◌++◌, map, Str,
  codes,
}
use kuja.Registry.{Node}

-- What is read of a service and of a subscriber.
pub record Hosted : Type 0 where
  pub id : Str
  pub name : Str
  pub node : Option Node

pub record Subscription : Type 0 where
  pub topic : Str
  pub queue : Str
  pub size : ℤ

pub record Hosting : Type 0 where
  pub id : Str
  pub has_registry : Bool
  pub has_broker : Bool
  pub services : List Hosted
  pub subscriptions : List Subscription

-- The calls that a server makes while it runs.
pub data Event : Type 0 where
  registers deregisters : Node → Event
  closes_registry connects closes_broker serves : Event
  subscribes : Str → Str → Str → ℤ → Event

-- `strings.Split(s, ":")`: the first part and the others
unfoldable pub split_colon : Str → Str × List Str
split_colon [] = ([], [])
split_colon (c ∷ s) =
    let (part, parts) = split_colon s in if c == b':' then ([], part ∷ parts) else (c ∷ part, parts)

-- `strings.Join(parts[:len(parts)-1], ":")` and the last part, of two parts or more
unfoldable pub split_last : Str → Str → List Str → Str × Str
split_last host part [] = (host, part)
split_last host part (next ∷ parts) = split_last (host ++ (b':' ∷ part)) next parts

abbrev pub host_port_of : Str × List Str → Str × Str
host_port_of (host, []) = (host, [])
host_port_of (host, port ∷ parts) = split_last host port parts

unfoldable pub host_port : Str → Str × Str
unfolding split_colon split_last
host_port addr = host_port_of (split_colon addr)

abbrev pub node_of : Str → Str → Hosted → Node
node_of scheme addr s = record {
  id = s.id;
  name = s.name;
  host = (host_port addr).0;
  port = (host_port addr).1;
  address = addr;
  url = scheme ++ addr;
}

abbrev pub with_node : Str → Str → Hosted → Hosted
with_node scheme addr s = record s { node = some (node_of scheme addr s) }

-- A part of a run: its error, the services afterwards, and the calls.
pub record Started : Type 0 where
  pub error : Option Str
  pub services : List Hosted
  pub events : List Event

abbrev pub add_started : Hosted → Event → Started → Started
add_started s e r = record r { services = s ∷ r.services; events = e ∷ r.events }

-- `register` and `connect` are the errors of the registry and of the broker.
module _ (register : Node → Option Str) (connect : Option Str) where
  -- The range over the services; the node of a service is set before it is registered.
  unfoldable pub register_all : Str → Str → List Hosted → Started
  register_all scheme addr [] = record { error = none; services = []; events = [] }
  register_all scheme addr (s ∷ rest) = elim (register (node_of scheme addr s)) [
    | none ↦
        add_started (with_node scheme addr s) (registers (node_of scheme addr s))
          (register_all scheme addr rest)
    | some e ↦ record {
      error = some e;
      services = with_node scheme addr s ∷ rest;
      events = registers (node_of scheme addr s) ∷ [];
    }
  ]

  abbrev pub start_registry : Bool → Str → Str → List Hosted → Started
  start_registry false scheme addr services = record {
    error = none;
    services = services;
    events = [];
  }
  start_registry true scheme addr services = register_all scheme addr services

  -- `startSubscribe`
  abbrev pub start_subscribe : Hosting → List Event
  start_subscribe server =
      if server.has_broker
      then map (λ s. subscribes s.topic s.queue server.id s.size) server.subscriptions
      else []

  abbrev pub deregister_node : Option Node → List Event → List Event
  deregister_node none es = es
  deregister_node (some n) es = deregisters n ∷ es

  -- The range over the services with a node; an error is logged.
  unfoldable pub deregister_all : List Hosted → List Event
  deregister_all [] = []
  deregister_all (s ∷ rest) = deregister_node s.node (deregister_all rest)

  abbrev pub stop_registry : Bool → List Hosted → List Event
  stop_registry false services = []
  stop_registry true services = deregister_all services ++ (closes_registry ∷ [])

  abbrev pub stop_broker : Bool → List Event
  stop_broker false = []
  stop_broker true = closes_broker ∷ []

  -- From `startSubscribe` on.
  abbrev pub run_connected : Hosting → List Hosted → List Event
  run_connected server services =
      start_subscribe server
      ++ (serves ∷ (stop_registry server.has_registry services ++ stop_broker server.has_broker))

  -- `startBroker`, and what follows it.
  abbrev pub connect_then : Option Str → Hosting → List Hosted → List Event
  connect_then (some e) server services = connects ∷ []
  connect_then none server services = connects ∷ run_connected server services

  abbrev pub run_registered : Bool → Hosting → List Hosted → List Event
  run_registered false server services = run_connected server services
  run_registered true server services = connect_then connect server services

  abbrev pub after_registry : Hosting → Option Str → Started → List Event
  after_registry server (some e) r = r.events
  after_registry server none r = r.events ++ run_registered server.has_broker server r.services

  unfoldable pub run_on : Hosting → Str → Str → List Event
  unfolding register_all deregister_all
  run_on server scheme addr =
      let r = start_registry server.has_registry scheme addr server.services in
      after_registry server r.error r

  -- `Run`; `listen` is the error of net.Listen
  unfoldable pub run : Option Str → Hosting → Str → List Event
  run (some e) server addr = []
  run none server addr = run_on server (codes "http://") addr

  -- `RunTLS`; `load` is the error of tls.LoadX509KeyPair
  unfoldable pub run_tls : Option Str → Option Str → Hosting → Str → List Event
  run_tls (some e) listen server addr = []
  run_tls none (some e) server addr = []
  run_tls none none server addr = run_on server (codes "https://") addr
