-- ===== src/Server/Lifecycle/Laws.antt =====
-- What a server tells its registry and its broker while it runs.
use kuja.Prelude.{
  ◌≡◌, refl, ap, ◌∙◌, Bool, true, false, Option, none, some, List, [], ◌∷◌, ◌++◌, map, All, Str,
}
use kuja.Registry.{Node}
use kuja.Server.Lifecycle.{
  Hosted, Hosting, Event, registers, deregisters, closes_registry, connects, closes_broker, serves,
  subscribes, node_of, with_node, Started, register_all, start_registry, deregister_all,
  stop_registry, run_registered, after_registry, run_on,
}

abbrev pub when : Bool → List Event → List Event
when true es = es
when false es = []

abbrev pub hosted_nodes : Str → Str → List Hosted → List Node
hosted_nodes scheme addr = map (node_of scheme addr)

module _ (register : Node → Option Str) (connect : Option Str) (scheme addr : Str) where
  -- The registry takes the node of each of the services.
  abbrev pub Registers : List Hosted → Type 0
  Registers = All (λ s. register (node_of scheme addr s) ≡ none)

  register_all-Registers :
      (ss : List Hosted)
      → Registers ss
      → register_all register connect scheme addr ss ≡ record {
        error = none;
        services = map (with_node scheme addr) ss;
        events = map registers (hosted_nodes scheme addr ss);
      }
  unfolding register_all
  register_all-Registers [] all = refl
  register_all-Registers (s ∷ ss) (e, all) =
      rw (e, register_all) (rw (register_all-Registers ss all) refl)

  deregister_all-with_node :
      (ss : List Hosted)
      → deregister_all register connect (map (with_node scheme addr) ss)
        ≡ map deregisters (hosted_nodes scheme addr ss)
  unfolding deregister_all
  deregister_all-with_node [] = refl
  deregister_all-with_node (s ∷ ss) =
      ap (λ es. deregisters (node_of scheme addr s) ∷ es) (deregister_all-with_node ss)

  abbrev pub subscribed : Hosting → List Event
  subscribed server = map (λ s. subscribes s.topic s.queue server.id s.size) server.subscriptions

  -- A whole run: what is registered is deregistered, and what is connected is closed.
  abbrev pub whole_run : Hosting → List Event
  whole_run server =
      when server.has_registry (map registers (hosted_nodes scheme addr server.services))
      ++ (when server.has_broker (connects ∷ [])
          ++ (when server.has_broker (subscribed server)
              ++ (serves
                  ∷ (when server.has_registry (
                        map deregisters (hosted_nodes scheme addr server.services)
                        ++ (closes_registry ∷ []))
                      ++ when server.has_broker (closes_broker ∷ [])))))

  -- The part of a run behind the registry, for the services as they are then.
  run_registered-none :
      (server : Hosting) (b : Bool) (ss : List Hosted)
      → connect ≡ none
      → server.has_broker ≡ b
      → run_registered register connect b server ss
        ≡ when b (connects ∷ [])
          ++ (when b (subscribed server)
              ++ (serves
                  ∷ (stop_registry register connect server.has_registry ss
                      ++ when b (closes_broker ∷ []))))
  run_registered-none server true ss e flag = rw (e, flag) refl
  run_registered-none server false ss e flag = rw (e, flag) refl

  services_after : Bool → List Hosted → List Hosted
  services_after true ss = map (with_node scheme addr) ss
  services_after false ss = ss

  start_registry-Registers :
      (b : Bool) (ss : List Hosted)
      → Registers ss
      → start_registry register connect b scheme addr ss ≡ record {
        error = none;
        services = services_after b ss;
        events = when b (map registers (hosted_nodes scheme addr ss));
      }
  unfolding services_after
  start_registry-Registers true ss all = register_all-Registers ss all
  start_registry-Registers false ss all = refl

  stop_registry-services_after :
      (b : Bool) (ss : List Hosted)
      → stop_registry register connect b (services_after b ss)
        ≡ when b (map deregisters (hosted_nodes scheme addr ss) ++ (closes_registry ∷ []))
  unfolding services_after
  stop_registry-services_after true ss =
      ap (λ es. es ++ (closes_registry ∷ [])) (deregister_all-with_node ss)
  stop_registry-services_after false ss = refl

  -- Where the registry takes all services and the broker connects, or the server has none of them, a
  -- run registers each service, connects and subscribes, serves, deregisters each service, and closes
  -- the registry and the broker, in this order.
  pub run_on-whole_run :
      (server : Hosting)
      → Registers server.services
      → connect ≡ none
      → run_on register connect server scheme addr ≡ whole_run server
  unfolding run_on
  run_on-whole_run server all e =
      let ss = server.services in
      let b = server.has_registry in
      let c = server.has_broker in
      ap (λ r. after_registry register connect server r.error r) (start_registry-Registers b ss all)
      ∙ ap (λ es. when b (map registers (hosted_nodes scheme addr ss)) ++ es)
          (run_registered-none server c (services_after b ss) e refl
            ∙ ap
                (λ es.
                  when c (connects ∷ [])
                  ++ (when c (subscribed server) ++ (serves ∷ (es ++ when c (closes_broker ∷ [])))))
                (stop_registry-services_after b ss))

  register_all-refused :
      (before after : List Hosted) (s : Hosted) (e : Str)
      → Registers before
      → register (node_of scheme addr s) ≡ some e
      → let r = register_all register connect scheme addr (before ++ (s ∷ after)) in
        (r.error ≡ some e)
        × (r.events
            ≡ map registers (hosted_nodes scheme addr before)
              ++ (registers (node_of scheme addr s) ∷ []))
  unfolding register_all
  register_all-refused [] after s e all denied = rw (denied, register_all) (refl, refl)
  register_all-refused (t ∷ before) after s e (yes_t, all) denied =
      let (failed, events) = register_all-refused before after s e all denied in
      rw (yes_t, register_all) (failed, ap (λ es. registers (node_of scheme addr t) ∷ es) events)

  after_refused :
      (server : Hosting) (e : Str) (r : Started)
      → r.error ≡ some e
      → after_registry register connect server r.error r ≡ r.events
  after_refused server e r failed = rw failed refl

  -- Where the registry refuses a service, the server does not serve, and it deregisters none of the
  -- services that it has registered before.
  pub run_on-refused :
      (server : Hosting) (before after : List Hosted) (s : Hosted) (e : Str)
      → server.has_registry ≡ true
      → server.services ≡ before ++ (s ∷ after)
      → Registers before
      → register (node_of scheme addr s) ≡ some e
      → run_on register connect server scheme addr
        ≡ map registers (hosted_nodes scheme addr before)
          ++ (registers (node_of scheme addr s) ∷ [])
  unfolding run_on
  run_on-refused server before after s e on all_services all denied =
      let started = register_all register connect scheme addr (before ++ (s ∷ after)) in
      let (failed, events) = register_all-refused before after s e all denied in
      ap
        (λ ss.
          let r = start_registry register connect server.has_registry scheme addr ss in
          after_registry register connect server r.error r)
        all_services
      ∙ ap
          (λ b.
            let r = start_registry register connect b scheme addr (before ++ (s ∷ after)) in
            after_registry register connect server r.error r)
          on
      ∙ after_refused server e started failed
      ∙ events
