-- ===== src/Lib.antt =====
-- kuja: a Go framework for web services: RPC over HTTP, and publish and subscribe over a broker.
--
-- The parts of the program. A `Server` (server.go, service.go, sub.go) answers HTTP requests with
-- the methods of registered services, through a chain of handlers that share a `Context`
-- (context.go); a client (client/) calls them and publishes messages. Messages travel through a
-- broker (broker/), which encodes them with the code of broker/message.pb.go. A registry
-- (registry/) lists the nodes of each service.
--
-- Prelude.antt and the modules below it hold what the others share: Boolean tests on native
-- numbers, lists measured by them, Go strings as lists of bytes (`Str`), Go maps as association
-- lists (`Dict`), and the bit operations of the codec as arithmetic.
--
-- Broker/Message.antt and the modules below it model broker/message.pb.go. `Message` is the struct;
-- an int, int64 or uint64 is its pattern of 64 bits and an int32 one of 32 bits, so wrap-around is
-- written out.
--   Size: Message.Size, sovMessage, sozMessage (`size`, `sov_message`, `soz_message`).
--   Marshal: Message.Marshal, MarshalTo, encodeVarintMessage (`marshal`, `marshal_to`,
--     `put_varint`). The buffer is a list that is overwritten in place; `none` is an index out of
--     range, where Go panics.
--   Unmarshal: Message.Unmarshal, skipMessage (`unmarshal`, `skip_message`), in a monad that passes
--     the message and ends with a value, an error or a panic. `stuck` is no Go value: the rounds
--     that the model allows did not suffice.
--   Format: the wire format described on its own: varints by groups of seven bits, and fields.
--   Parts: the same with fields of other numbers, which a decoder is to skip.
--   Writes, Encoding, Scan, Retry, Decoding, Skip, Unknown, Cut, Truncated, RoundTrip, Malformed: the
--     proofs.
-- Bounds of the loops: sovMessage and encodeVarintMessage divide `v` by 128 in each round and get
-- `v` rounds; the loop of Unmarshal gets one round more than there are bytes, which is enough where
-- each field moves the index forwards. sortkeys.Strings of gogo/protobuf is a parameter, of which
-- the theorems ask that it permutes the keys.
--
-- Broker/Delivery.antt models what the brokers do with a message that came in: the callback of
-- broker/nats/nats.go (`nats_receive`), the loop body of the consumer of broker/rabbitmq/rabbitmq.go
-- (`rabbit_receive`), both with the same `retry_loop`, and the table of handlers of
-- broker/stub_broker/stub.go (`subscribe`, `publish`). A handler passes a state of any type; a
-- delivery keeps the messages that the handler was called with and how it was settled. A negative
-- retry count is not modelled: it makes no calls, as 0. The rounds of the loop are the retry count
-- itself. Delivery/Retries.antt and Delivery/Table.antt have the proofs.
--
-- Broker/Http.antt models broker/http/http.go: ServeHTTP (`serve_message_http`) and Publish, whose
-- request is a parameter (`publish_http`, `publish_error`). Its handlers are those of the stub's
-- table, whose range `publish_all` it shares. Broker/Http/Laws.antt compares the two brokers.
--
-- Server/Route.antt models getServiceMethod of server.go; Server/Route/Laws.antt has its proofs.
--
-- Server/Register.antt models service.go: `register` and `prepareMethod` over what reflect tells of a
-- type (`GoType`, `ReflectMethod`). Whether the first rune of a name is upper case is a parameter,
-- as is the identifier that uuid.NewV1 makes. Register/Methods.antt and Register/Laws.antt have the
-- proofs. `Registered` is the service as it is registered, `Service` of Server/Rpc/Http.antt the
-- service as it is called: the latter has functions for methods.
--
-- Server/Subscribe.antt models the handlers of sub.go: `reject_with` is Reject, `subscribe_handler`
-- is subscribe, and `subscribe_timeout` is subscribeTimeout, with the end of its select as an
-- argument. A method of a subscriber is a function; the encoder's Unmarshal is a parameter.
-- Server/PubSub.antt models registerSub (`register_sub`) and ServePubSub (`serve_pub_sub`).
-- Server/Subscribe/Laws.antt and Server/PubSub/Laws.antt have the proofs, with the retries of
-- Broker/Delivery.antt.
--
-- Server/Rpc.antt and the modules below it model one request: the rest of server.go from ServeHTTP
-- on, and context.go.
--   Rpc: Context, and handlers as programs (`Action`) that call `ctx.Next`, use the writer, read and
--     assign the exported fields, and return an error or nil. The writer is the log of the calls
--     that it received. A method is a function of its argument, and of the exported fields where it
--     takes the context. A panic of a handler or a method is not modelled.
--   Rpc/Serve: serve (`serve`, `answer`, `finish`), respError (`resp_error`), Next (`next_loop`).
--   Rpc/Http: ServeHTTP (`serve_http`, and one definition for each of its stages). The context that
--     the pool hands out is an argument, so that theorems hold for fresh and for used ones.
--   Rpc/Chain, Rpc/Reuse: the proofs.
-- Next nests as deep as there are handlers: `run_service` gives it that many rounds, and
-- `serve_http` never ends as `stuck`. The encoders, the snappy codec and errors.InternalError of
-- plimble/errors are the fields of `Externals`.
--
-- Server/Rpc/Nested.antt compares the chain with one that has no index, of handlers inside each
-- other, and Server/Rpc/Fresh.antt has the context that the pool of NewServer makes.
-- Server/Rpc/Pool.antt models the pool while requests overlap, as a step relation: a request begins
-- on a new context or on any that was put back, and its context is put back when it ends. A request
-- that needs no context takes one here and drops it, which the pool may do anyway. Pool/Single,
-- Pool/Bypass and Pool/Leak have the proofs.
--
-- Server/Setup.antt models NewServer, the setters of server.go and Service of service.go; a server
-- that is set up is one that calls of Use and Service lead to (`SetUp`). Server/Setup/Laws.antt has
-- the proofs.
-- Server/Logging.antt models the default hooks for errors, by the level of the line that they log.
--
-- Encoder.antt models encoder/gogoproto and encoder/msgp over the packages that they call, and the
-- encoders as a server uses them; Encoder/Message.antt models encoder/proto, encoder/json and the
-- content types. Encoder/Laws.antt and Client/Proto.antt have the proofs.
--
-- Broker/Publish.antt models NewMessage of broker/broker.go and Publish of the nats and rabbitmq
-- brokers: `Marshal`, and then the connection, a parameter. Broker/Connection.antt models Connect,
-- Close and the calls of Subscribe, with the results of amqp, nats and net as parameters; the calls on
-- a connection are a list, and its channels are numbered. Broker/Connection/Laws.antt has the proofs.
--
-- Client.antt and the modules below it model client/.
--   Client: option.go (`set_option`), New and NewWithRegistry of client.go (`new`,
--     `new_with_registry`). Client/Address.antt: `GetAddress` of direct.go and discovery.go.
--   Client/Request: Request of client.go (`request`, `read_response`). A call through hystrix and
--     net/http has one of the outcomes of `HttpOutcome`; the encoders, the snappy codec and the
--     canonical form of a header's name are parameters.
--   Client/Publish: Publish of client.go, and a message on its way to a subscriber.
--   Client/Async: AsyncRequests: the loop over the channel (`async_requests`), and in
--     Client/Async/Goroutines the steps of the goroutines and of the loop, which share the channel
--     with its buffer and the map of configured services (`AsyncStep`). Client/Async/Alike,
--     Responses, Progress, Race, Drawn and Orders have the proofs.
--   Client/Close: Close (`close`).
--   Client/Wire: what net/http does with the calls on a ResponseWriter, as laws of a parameter, for
--     headers that leave the body alone and statuses with a body.
--   Client/Pair, Client/Errors, Client/Headers: the proofs, those of a client and a server together.
--   Client/Call: a whole call, from Request of the client through ServeHTTP and back.
--
-- Contract.antt models contract/spec.go and client/stub_client/client.go: ContractTest with any client
-- (`contract_test`) and the stub client (`stub_client`). The type name of a value and the encoder are
-- parameters. Contract/Laws.antt, Contract/Passes.antt and Contract/Agrees.antt have the proofs.
--
-- Registry.antt has the types of registry/registry.go. Registry/Mutex.antt is a cache of services
-- behind a sync.RWMutex, with the steps of one goroutine: `waits` is a lock that is not given back.
-- Registry/Consul.antt models registry/consul/consul.go and Registry/Consul/Watcher.antt the handlers
-- of registry/consul/watcher.go; the catalog, the watch plans and strconv are parameters.
-- Registry/Consul/Locks, Laws and Address have the proofs. Registry/Consul/Start.antt has NewRegistry
-- and the start and stop of the watcher.
-- Registry/Etcd.antt models registry/etcd/etcd.go and Registry/Etcd/Watcher.antt the loop of
-- registry/etcd/watcher.go over responses; `fatal` is also the panic of a nil pointer there.
-- Registry/Etcd/Lease.antt has the keys that Register keeps in etcd, as a step relation, and
-- Registry/Etcd/Laws.antt the proofs on the cache; Registry/Etcd/Discovery.antt follows a service
-- from the server that registers it to the path that a client asks for.
--
-- Server/Lifecycle.antt models Run and RunTLS of server.go with startRegistry, startBroker,
-- startSubscribe, stopRegistry and stopBroker: a run is the list of the calls on the registry, the
-- broker and the HTTP server (`Event`). Server/Lifecycle/Laws.antt has the proofs, and
-- Server/Lifecycle/Address.antt those on the host and the port.
--
-- Not modelled: the listeners, TLS configurations and signals of Run and RunTLS, what the packages
-- behind the brokers do with the calls on a connection, the mock client, which is generated, the stub
-- registry, whose operations return nil, and example/. They are I/O, or calls of packages that are not
-- in the repository.
pub mod Registry
pub mod Contract
pub mod Encoder
pub mod Client
pub mod Prelude
pub mod Broker
pub mod Server
