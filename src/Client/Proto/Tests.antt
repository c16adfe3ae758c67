-- ===== src/Client/Proto/Tests.antt =====
-- A reply that is no message of the protobuf package, here a text that is not empty.
use kuja.Prelude.{◌≡◌, refl, true, none, [], Str, codes, str_eq}
use kuja.Encoder.{ProtoPackage, proto_encoder, proto_marshal}
use kuja.Server.Rpc.{Externals, Context, two, value}
use kuja.Server.Rpc.Serve.{encoder_for, answer}
use kuja.Server.Tests.{copying, context_at, add_request}
use kuja.Client.Request.{read_response, returns}
use kuja.Client.Tests.{copy_wire, copy_encoder, json_error_of, plain_error}
use kuja.Client.Proto.{proto_client, read_response-proto_encoder}

abbrev empty_only : ProtoPackage Str
empty_only = record {
  is_marshaler = λ s. str_eq s [];
  is_unmarshaler = λ s. str_eq s [];
  marshal = λ s. value (codes "m");
  unmarshal = λ bytes s. (s, none);
}

abbrev with_proto : Externals
with_proto = record copying { proto = proto_encoder empty_only (λ s. none) (λ t. []) }

abbrev proto_context : Context Str
proto_context = record (context_at 0) {
  req = record add_request { content_type = codes "application/proto" };
}

read_response-proto_encoder_example :
    read_response
      (proto_client with_proto copy_wire (λ s. value s) json_error_of plain_error (λ s. none))
      true
      copy_encoder
      (copy_wire.deliver (answer with_proto (two (codes "hi") none) proto_context).1.out)
    ≡ returns 200 none none
unfolding encoder_for str_eq proto_marshal
read_response-proto_encoder_example =
    read_response-proto_encoder with_proto copy_wire (λ s. value s) json_error_of plain_error
      (λ s. none) copy_encoder true empty_only (λ s. none) (λ t. []) (codes "hi") proto_context refl
      refl tt refl refl
