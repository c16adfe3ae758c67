-- ===== src/Server/Setup.antt =====
-- The calls that set a server up, before it runs: NewServer and the setters of server.go and
-- service.go, and `Service` of service.go.
pub mod Laws
mod Tests
use kuja.Prelude.{Bool, true, false, Option, none, some, List, [], ◌∷◌, ◌++◌, ◌≡◌, Str, codes}
use kuja.Server.Register.{
  Receiver, Registrar, Registration, exits, refuses, accepts, register, use_handlers,
}

-- The fields that NewServer and the setters assign, over the types of handlers, brokers, encoders,
-- registries and the two hooks.
pub record Settings (H B E R F G : Type 0) : Type 0 where
  pub stage : Str
  pub id : Str
  pub middleware : List H
  pub broker : Option B
  pub encoder : E
  pub snappy : Bool
  pub registry : Option R
  pub service_error : F
  pub subscriber_error : G

pub data Setter (H B E R F G : Type 0) : Type 0 where
  sets_stage : Str → Setter H B E R F G
  uses : List H → Setter H B E R F G
  sets_snappy : Bool → Setter H B E R F G
  sets_registry : R → Setter H B E R F G
  sets_encoder : E → Setter H B E R F G
  sets_broker : B → Setter H B E R F G
  sets_service_error : F → Setter H B E R F G
  sets_subscriber_error : G → Setter H B E R F G

module _ {H B E R F G : Type 0} where
  -- `NewServer`, with the identifier of uuid.NewV1, the JSON encoder and the two default hooks
  abbrev pub new_server : Str → E → F → G → Settings H B E R F G
  new_server uuid json service_error subscriber_error = record {
    stage = codes "development";
    id = uuid;
    middleware = [];
    broker = none;
    encoder = json;
    snappy = false;
    registry = none;
    service_error = service_error;
    subscriber_error = subscriber_error;
  }

  unfoldable pub set : Setter H B E R F G → Settings H B E R F G → Settings H B E R F G
  set (sets_stage stage) s = record s { stage = stage }
  set (uses h) s = record s { middleware = s.middleware ++ h }
  set (sets_snappy enable) s = record s { snappy = enable }
  set (sets_registry r) s = record s { registry = some r }
  set (sets_encoder enc) s = record s { encoder = enc }
  set (sets_broker b) s = record s { broker = some b }
  set (sets_service_error fn) s = record s { service_error = fn }
  set (sets_subscriber_error fn) s = record s { subscriber_error = fn }

  unfoldable pub set_all : List (Setter H B E R F G) → Settings H B E R F G → Settings H B E R F G
  unfolding set
  set_all [] s = s
  set_all (x ∷ xs) s = set_all xs (set x s)

-- A call that sets a server up.
pub data SetUpCall (H : Type 0) : Type 0 where
  calls_use : List H → SetUpCall H
  calls_service : Str → Receiver → List H → SetUpCall H

module _ (is_upper : Str → Bool) {H : Type 0} where
  -- `Service`: an error of `register` ends the process.
  abbrev pub exit_on_error : Registration H → Registration H
  exit_on_error (exits e) = exits e
  exit_on_error (refuses e) = exits e
  exit_on_error (accepts server) = accepts server

  unfoldable pub service : Str → Receiver → List H → Registrar H → Registration H
  service uuid rcvr h server = exit_on_error (register is_upper uuid rcvr [] false h server)

  -- A server that the process has set up, by `Use` and `Service` in any order; the calls are listed
  -- in the order in which they were made.
  pub data SetUp : List (SetUpCall H) → Registrar H → Type 0 where
    fresh : SetUp [] (record { middleware = []; service_map = [] })
    used :
        {calls : List (SetUpCall H)} {server : Registrar H} (h : List H)
        → SetUp calls server
        → SetUp (calls ++ (calls_use h ∷ [])) (use_handlers is_upper h server)
    served :
        {calls : List (SetUpCall H)} {server next : Registrar H} (uuid : Str) (rcvr : Receiver)
        (h : List H)
        → SetUp calls server
        → service uuid rcvr h server ≡ accepts next
        → SetUp (calls ++ (calls_service uuid rcvr h ∷ [])) next
