-- ===== src/Encoder/Laws.antt =====
-- The two ways to write with an encoder.
use kuja.Prelude.{◌≡◌, refl, Bool-cases, inl, inr, Option, Str}
use kuja.Server.Rpc.{GoError}
use kuja.Encoder.{ProtoPackage, write_marshalled, proto_encode, proto_marshal}

module _ {V : Type 0} (x : ProtoPackage V) (write : Str → Option GoError) where
  -- `Encode` writes what `Marshal` returns and gives its error.
  pub proto_encode-proto_marshal :
      (v : V) → proto_encode x write v ≡ write_marshalled write (proto_marshal x v)
  unfolding proto_encode proto_marshal
  proto_encode-proto_marshal v = elim (Bool-cases (x.is_marshaler v)) [
    | inl is ↦ rw is refl
    | inr is_not ↦ rw is_not refl
  ]
