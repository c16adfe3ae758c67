-- ===== src/Encoder.antt =====
-- encoder/: the encoders over proto, gogoproto and msgp. The packages that they call, the tests for
-- their interfaces and the writer are parameters. encoder/json passes each call on, so it is the
-- package itself.
pub mod Laws
pub mod Message
use kuja.Prelude.{Bool, true, false, if◌then◌else◌, Option, none, some, List, [], ◌∷◌, Str, codes}
use kuja.Server.Rpc.{GoError, Returned, fails, value, Encoder}

-- What an `Encode` writes, and its error.
abbrev pub Written : Type 0
Written = List Str × Option GoError

-- What `Decode` or `Unmarshal` makes of the value that it has a pointer to, and its error.
abbrev pub Filled : Type 0 → Type 0
Filled V = V × Option GoError

-- github.com/golang/protobuf or github.com/gogo/protobuf. The first has one interface for both
-- ways, so that its two tests are the same.
pub record ProtoPackage (V : Type 0) : Type 0 where
  pub is_marshaler : V → Bool
  pub is_unmarshaler : V → Bool
  pub marshal : V → Returned Str
  pub unmarshal : Str → V → Filled V

-- github.com/tinylib/msgp
pub record MsgpPackage (V : Type 0) : Type 0 where
  pub is_encodable : V → Bool
  pub is_decodable : V → Bool
  pub is_marshaler : V → Bool
  pub is_unmarshaler : V → Bool
  pub encode : V → Written
  pub decode : Str → V → Filled V
  pub marshal : V → Returned Str
  pub unmarshal : Str → V → Str × Filled V

abbrev pub no_message : GoError
no_message = record { text = codes "does not proto message interface"; status = none }

-- `w.Write(data)`, whose error is `write`
abbrev pub write_marshalled : (Str → Option GoError) → Returned Str → Written
write_marshalled write (fails e) = ([], some e)
write_marshalled write (value bytes) = (bytes ∷ [], write bytes)

module _ {V : Type 0} (x : ProtoPackage V) where
  unfoldable pub proto_encode : (Str → Option GoError) → V → Written
  proto_encode write v =
      if x.is_marshaler v then write_marshalled write (x.marshal v) else ([], some no_message)

  -- The reader is read to its end into a buffer of the pool.
  unfoldable pub proto_decode : Str → V → Filled V
  proto_decode body v = if x.is_unmarshaler v then x.unmarshal body v else (v, some no_message)

  unfoldable pub proto_marshal : V → Returned Str
  proto_marshal v = if x.is_marshaler v then x.marshal v else fails no_message

  unfoldable pub proto_unmarshal : Str → V → Filled V
  proto_unmarshal bytes v = if x.is_unmarshaler v then x.unmarshal bytes v else (v, some no_message)

-- `internal_error` is errors.InternalError of github.com/plimble/errors.
module _ {V : Type 0} (x : MsgpPackage V) (internal_error : Str → GoError) where
  unfoldable pub msgp_encode : V → Written
  msgp_encode v =
      if x.is_encodable v
      then x.encode v
      else ([], some (internal_error (codes "object is not implement msgp Encodable interface")))

  unfoldable pub msgp_decode : Str → V → Filled V
  msgp_decode body v =
      if x.is_decodable v
      then x.decode body v
      else (v, some (internal_error (codes "object is not implement msgp Decodable interface")))

  unfoldable pub msgp_marshal : V → Returned Str
  msgp_marshal v =
      if x.is_marshaler v
      then x.marshal v
      else fails (internal_error (codes "object is not implement msgp Marshaler interface"))

  -- The bytes behind the value are dropped.
  unfoldable pub msgp_unmarshal : Str → V → Filled V
  msgp_unmarshal bytes v =
      if x.is_unmarshaler v
      then (x.unmarshal bytes v).1
      else (v, some (internal_error (codes "object is not implement msgp Unmarshaler interface")))

abbrev pub filled_value : {V : Type 0} → Filled V → Returned V
filled_value (v, none) = value v
filled_value (v, some e) = fails e

-- An encoder as a server uses it: `new` makes a value of a type, and the error of `Encode` is dropped.
abbrev pub proto_encoder :
    {V : Type 0} → ProtoPackage V → (Str → Option GoError) → (Str → V) → Encoder V
proto_encoder x write new = record {
  decode = λ t body. filled_value (proto_decode x body (new t));
  marshal = proto_marshal x;
  encode = λ v. (proto_encode x write v).0;
}

abbrev pub msgp_encoder : {V : Type 0} → MsgpPackage V → (Str → GoError) → (Str → V) → Encoder V
msgp_encoder x internal_error new = record {
  decode = λ t body. filled_value (msgp_decode x internal_error body (new t));
  marshal = msgp_marshal x internal_error;
  encode = λ v. (msgp_encode x internal_error v).0;
}
