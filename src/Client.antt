-- ===== src/Client.antt =====
-- client/option.go, and the constructors of client/client.go.
pub mod Address
pub mod Request
pub mod Async
pub mod Publish
pub mod Wire
pub mod Headers
pub mod Pair
pub mod Proto
pub mod Call
pub mod Errors
pub mod Close
pub mod Tests
use kuja.Prelude.{
  ◌≡◌, refl, ℤ, pos, zero, suc, ◌-◌, Bool, true, false, if◌then◌else◌, Option, none, some, List, [],
  ◌∷◌, Str, codes, length, take, has_prefix,
}
use kuja.Prelude.Dict.{Dict}

-- The struct `option`, over the types of brokers, encoders and TLS configurations.
pub record Settings (B E T : Type 0) : Type 0 where
  pub broker : Option B
  pub encoder : E
  pub header : Dict Str
  pub timeout : ℤ
  pub max_concurrent_requests : ℤ
  pub request_volume_threshold : ℤ
  pub sleep_window : ℤ
  pub error_percent_threshold : ℤ
  pub tls_config : Option T

-- The error values of the hystrix package, which three options assign.
pub record Hystrix : Type 0 where
  pub err_max_concurrency : Str
  pub err_circuit_open : Str
  pub err_timeout : Str

-- The functions that return an `Option`.
pub data ClientOption (B E T : Type 0) : Type 0 where
  broker : B → ClientOption B E T
  encoder : E → ClientOption B E T
  header : Dict Str → ClientOption B E T
  timeout max_concurrent_requests request_volume_threshold sleep_window error_percent_threshold :
      ℤ → ClientOption B E T
  err_max_concurrency err_circuit_open err_timeout : Str → ClientOption B E T
  tls_config : T → ClientOption B E T

module _ {B E T : Type 0} where
  -- `newOption`, with `DefaultEncoder` as its argument
  abbrev pub new_option : E → Settings B E T
  new_option default_encoder = record {
    broker = none;
    encoder = default_encoder;
    header = [];
    timeout = pos 1000;
    max_concurrent_requests = pos 0;
    request_volume_threshold = pos 5;
    sleep_window = pos 1000;
    error_percent_threshold = pos 50;
    tls_config = none;
  }

  -- A call of an option.
  unfoldable pub set_option :
      ClientOption B E T → Settings B E T × Hystrix → Settings B E T × Hystrix
  set_option (broker b) (o, h) = (record o { broker = some b }, h)
  set_option (encoder e) (o, h) = (record o { encoder = e }, h)
  set_option (header m) (o, h) = (record o { header = m }, h)
  set_option (timeout n) (o, h) = (record o { timeout = n }, h)
  set_option (max_concurrent_requests n) (o, h) = (record o { max_concurrent_requests = n }, h)
  set_option (request_volume_threshold n) (o, h) = (record o { request_volume_threshold = n }, h)
  set_option (sleep_window n) (o, h) = (record o { sleep_window = n }, h)
  set_option (error_percent_threshold n) (o, h) = (record o { error_percent_threshold = n }, h)
  set_option (err_max_concurrency s) (o, h) = (o, record h { err_max_concurrency = s })
  set_option (err_circuit_open s) (o, h) = (o, record h { err_circuit_open = s })
  set_option (err_timeout s) (o, h) = (o, record h { err_timeout = s })
  set_option (tls_config c) (o, h) = (record o { tls_config = some c }, h)

  unfoldable pub set_options :
      List (ClientOption B E T) → Settings B E T × Hystrix → Settings B E T × Hystrix
  unfolding set_option
  set_options [] s = s
  set_options (x ∷ xs) s = set_options xs (set_option x s)

abbrev pub is_some : {A : Type 0} → Option A → Bool
is_some none = false
is_some (some a) = true

-- How a client finds the address of a method: `Direct`, or `Discovery` with a registry.
pub data Method (R : Type 0) : Type 0 where
  direct : Str → Method R
  discovery : R → Method R

-- A `DefaultClient`. `json_encoder` is a nil interface where nothing assigns it.
pub record Client (B E T R : Type 0) : Type 0 where
  pub option : Settings B E T
  pub method : Method R
  pub configured : List Str
  pub json_encoder : Option E

-- What a constructor does: it returns a client or an error, and it may have connected a broker and
-- have had the registry watch.
pub record Made (B E T R : Type 0) : Type 0 where
  pub result : Option (Client B E T R)
  pub error : Option Str
  pub connected : List B
  pub watched : Bool
  pub hystrix : Hystrix

-- The slash is dropped at the end of a URL that begins with one.
unfoldable pub trim_url : Str → Str
trim_url url = if has_prefix url (codes "/") then take (length url - 1) url else url

module _ {B E T R : Type 0} (connect : B → Option Str) (json : E) where
  abbrev pub client_of : Method R → Option E → Settings B E T → Client B E T R
  client_of method json_encoder o = record {
    option = o;
    method = method;
    configured = [];
    json_encoder = json_encoder;
  }

  -- `if err := opt.Broker.Connect(); err != nil`
  abbrev pub after_connect : Bool → Client B E T R → Hystrix → B → Option Str → Made B E T R
  after_connect watch client h b none = record {
    result = some client;
    error = none;
    connected = b ∷ [];
    watched = watch;
    hystrix = h;
  }
  after_connect watch client h b (some e) = record {
    result = none;
    error = some e;
    connected = b ∷ [];
    watched = watch;
    hystrix = h;
  }

  abbrev pub connect_broker : Bool → Client B E T R → Hystrix → Option B → Made B E T R
  connect_broker watch client h none = record {
    result = some client;
    error = none;
    connected = [];
    watched = watch;
    hystrix = h;
  }
  connect_broker watch client h (some b) = after_connect watch client h b (connect b)

  abbrev pub make_client : Bool → Method R → Option E → Settings B E T × Hystrix → Made B E T R
  make_client watch method json_encoder (o, h) =
      connect_broker watch (client_of method json_encoder o) h o.broker

  -- `New`
  unfoldable pub new : Str → List (ClientOption B E T) → Hystrix → Made B E T R
  unfolding trim_url set_options
  new url opts h =
      make_client false (direct (trim_url url)) (some json) (set_options opts (new_option json, h))

  -- `NewWithRegistry`, the results of `Watch` are dropped
  unfoldable pub new_with_registry : R → Bool → List (ClientOption B E T) → Hystrix → Made B E T R
  unfolding set_options
  new_with_registry r watch opts h =
      make_client watch (discovery r) none (set_options opts (new_option json, h))

  json_encoder-connected :
      (watch : Bool) (c client : Client B E T R) (h : Hystrix) (b : B) (e : Option Str)
      → c.json_encoder ≡ none
      → (after_connect watch c h b e).result ≡ some client
      → client.json_encoder ≡ none
  json_encoder-connected watch c client h b none nil e = cc
  json_encoder-connected watch c client h b (some text) nil e = absurd cc

  json_encoder-made :
      (watch : Bool) (c client : Client B E T R) (h : Hystrix) (o : Option B)
      → c.json_encoder ≡ none
      → (connect_broker watch c h o).result ≡ some client
      → client.json_encoder ≡ none
  json_encoder-made watch c client h none nil e = cc
  json_encoder-made watch c client h (some b) nil e =
      json_encoder-connected watch c client h b (connect b) nil e

  -- A client that `NewWithRegistry` returns has no JSON encoder.
  pub new_with_registry-nil :
      (r : R) (watch : Bool) (opts : List (ClientOption B E T)) (h : Hystrix)
      (client : Client B E T R)
      → (new_with_registry r watch opts h).result ≡ some client
      → client.json_encoder ≡ none
  unfolding new_with_registry
  new_with_registry-nil r watch opts h client e =
      let s = set_options opts (new_option json, h) in
      json_encoder-made watch (client_of (discovery r) none s.0) client s.1 s.0.broker refl e

abbrev pub has_json_encoder : {B E T R : Type 0} → Client B E T R → Bool
has_json_encoder c = is_some c.json_encoder
