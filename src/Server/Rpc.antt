-- ===== src/Server/Rpc.antt =====
-- server.go and context.go: the state of one request, handlers as programs, and `Context.Next`.
-- Encoders, the snappy codec and the error package are parameters (`Externals`).
pub mod Serve
pub mod Http
pub mod Chain
pub mod Reuse
pub mod Nested
pub mod Fresh
pub mod Pool
use kuja.Prelude.{ℕ, Bool, true, false, Option, none, some, List, [], Str}
use kuja.Prelude.Dict.{Dict}

-- A Go error; `status` is there for one that implements errors.Error of github.com/plimble/errors.
pub record GoError : Type 0 where
  pub text : Str
  pub status : Option ℕ

-- The calls that are made on a http.ResponseWriter.
pub data Call : Type 0 where
  set_header : Str → Str → Call
  write_header : ℕ → Call
  write : Str → Call

pub record Request : Type 0 where
  pub method : Str
  pub path : Str
  pub header : Dict (List Str)
  -- What `Header.Get("Content-Type")` returns.
  pub content_type : Str
  pub body : Str

pub data Returned (Value : Type 0) : Type 0 where
  fails : GoError → Returned Value
  value : Value → Returned Value

-- An encoder.Encoder: `encode` gives the pieces that it writes, its error is dropped by the caller.
pub record Encoder (Value : Type 0) : Type 0 where
  pub decode : Str → Str → Returned Value
  pub marshal : Value → Returned Str
  pub encode : Value → List Str

pub record Externals : Type 1 where
  pub Value : Type 0
  pub json : Encoder Value
  pub proto : Encoder Value
  pub gogoproto : Encoder Value
  pub msgp : Encoder Value
  pub snappy_encode : Str → Str
  pub internal_error : Str → GoError
  -- The text that the JSON encoder writes for an errors.Error.
  pub error_json : GoError → List Str

-- The exported fields of a Context, which handlers and methods can read and assign.
pub record View : Type 0 where
  pub req_metadata : Dict Str
  pub resp_metadata : Dict Str
  pub service_id : Str
  pub service_name : Str
  pub method_name : Str

-- What a method returns: an error or nil, or a reply and an error or nil. The reply is a pointer
-- in an interface, so it is never the nil interface.
pub data Reply (Value : Type 0) : Type 0 where
  one : Option GoError → Reply Value
  two : Value → Option GoError → Reply Value

-- A methodType. A method without a context argument has no access to the context.
pub data Method (Value : Type 0) : Type 0 where
  plain : Str → (Value → Reply Value) → Method Value
  with_context : Str → (View → Value → View × Reply Value) → Method Value

-- The body of a handler: it ends, calls `ctx.Next`, uses the writer, or reads or assigns exported
-- fields. The index and the handlers of the context are not exported.
pub data Action : Type 0 where
  done : Option GoError → Action
  next : (Option GoError → Action) → Action
  call : Call → Action → Action
  look : (View → Action) → Action
  assign : View → Action → Action

abbrev pub Handler : Type 0
Handler = Request → Action

-- A call of the hook `serviceError`, which runs in a goroutine of its own.
pub record Report : Type 0 where
  pub service_id : Str
  pub service : Str
  pub method : Str
  pub status : ℕ
  pub error : GoError

-- The fields of a Context that outlive a request or are read by it. The writer `w` is the log of
-- the calls that are made on it.
pub record Context (Value : Type 0) : Type 0 where
  pub view : View
  pub index : ℕ
  pub handlers : List Handler
  pub mt : Option (Method Value)
  pub req : Request
  pub snappy : Bool
  pub is_resp : Bool
  pub out : List Call
  pub reports : List Report
