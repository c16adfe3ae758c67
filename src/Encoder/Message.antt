-- ===== src/Encoder/Message.antt =====
-- encoder/proto over github.com/golang/protobuf, and encoder/json over encoding/json.
use kuja.Prelude.{◌≡◌, refl, Bool, true, false, if◌then◌else◌, Option, some, [], Str, codes, str_eq}
use kuja.Server.Rpc.{GoError, Returned, fails, Encoder, Externals}
use kuja.Server.Rpc.Serve.{encoder_for}
use kuja.Encoder.{
  Written, Filled, ProtoPackage, no_message, write_marshalled, filled_value, proto_encode,
  proto_decode, proto_marshal, proto_encoder,
}

-- A value is a proto.Message or is not; the package marshals and unmarshals messages.
pub record MessagePackage (V : Type 0) : Type 0 where
  pub is_message : V → Bool
  pub marshal : V → Returned Str
  pub unmarshal : Str → V → Filled V

module _ {V : Type 0} (x : MessagePackage V) where
  unfoldable pub message_encode : (Str → Option GoError) → V → Written
  message_encode write v =
      if x.is_message v then write_marshalled write (x.marshal v) else ([], some no_message)

  unfoldable pub message_decode : Str → V → Filled V
  message_decode body v = if x.is_message v then x.unmarshal body v else (v, some no_message)

  unfoldable pub message_marshal : V → Returned Str
  message_marshal v = if x.is_message v then x.marshal v else fails no_message

  unfoldable pub message_unmarshal : Str → V → Filled V
  message_unmarshal bytes v = if x.is_message v then x.unmarshal bytes v else (v, some no_message)

  -- The encoder as a server uses it.
  abbrev pub message_encoder : (Str → Option GoError) → (Str → V) → Encoder V
  message_encoder write new = record {
    decode = λ t body. filled_value (message_decode body (new t));
    marshal = message_marshal;
    encode = λ v. (message_encode write v).0;
  }

  -- The package with one test for both ways.
  abbrev pub as_proto : ProtoPackage V
  as_proto = record {
    is_marshaler = x.is_message;
    is_unmarshaler = x.is_message;
    marshal = x.marshal;
    unmarshal = x.unmarshal;
  }

  -- The encoder of encoder/proto is that of encoder/gogoproto over the same package.
  pub message_encoder-proto_encoder :
      (write : Str → Option GoError) (new : Str → V)
      → message_encoder write new ≡ proto_encoder as_proto write new
  unfolding message_encode message_decode message_marshal proto_encode proto_decode proto_marshal
  message_encoder-proto_encoder write new = refl

-- encoding/json, with `Encode` and `Decode` of its streams.
pub record JsonPackage (V : Type 0) : Type 0 where
  pub encode : V → Written
  pub decode : Str → V → Filled V
  pub marshal : V → Returned Str
  pub unmarshal : Str → V → Filled V

module _ {V : Type 0} (x : JsonPackage V) where
  unfoldable pub json_encode : V → Written
  json_encode v = x.encode v

  unfoldable pub json_decode : Str → V → Filled V
  json_decode body v = x.decode body v

  unfoldable pub json_marshal : V → Returned Str
  json_marshal v = x.marshal v

  unfoldable pub json_unmarshal : Str → V → Filled V
  json_unmarshal bytes v = x.unmarshal bytes v

-- `ContentType` of the four encoders.
unfoldable pub json_type : Str
json_type = codes "application/json"

unfoldable pub message_type : Str
message_type = codes "application/proto"

unfoldable pub proto_type : Str
proto_type = codes "application/gogoproto"

unfoldable pub msgp_type : Str
msgp_type = codes "application/msgp"

-- At the server, the content type of each of the encoders selects this encoder, and a content type
-- that is none of the four selects the JSON encoder.
pub encoder_for-content_type :
    (x : Externals) (t : Str)
    → (encoder_for x json_type ≡ x.json)
      × (encoder_for x message_type ≡ x.proto)
      × (encoder_for x proto_type ≡ x.gogoproto)
      × (encoder_for x msgp_type ≡ x.msgp)
      × (str_eq t message_type ≡ false
          → str_eq t proto_type ≡ false
          → str_eq t msgp_type ≡ false
          → encoder_for x t ≡ x.json)
unfolding encoder_for json_type message_type proto_type msgp_type str_eq
encoder_for-content_type x t = (
  refl,
  refl,
  refl,
  refl,
  (λ a b c. rw (a, b, c) (if_same (str_eq t (codes "application/json")))),
)
  where
    if_same : (b : Bool) → (if b then x.json else x.json) ≡ x.json
    if_same true = refl
    if_same false = refl
