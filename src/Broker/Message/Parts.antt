-- ===== src/Broker/Message/Parts.antt =====
-- The wire format of data with fields that broker/message.proto does not have, which a decoder is
-- to skip. Nothing here is code of the program.
use kuja.Prelude.{ℕ, ◌+◌, ◌*◌, ◌^◌, ◌<◌, ◌≡◌, Str, List, [], ◌∷◌, ◌++◌, length}
use kuja.Broker.Message.{Message}
use kuja.Broker.Message.Format.{varint, Field, encode, apply}
use kuja.Broker.Message.Decoding.{IsSmall}

-- What stands in a field behind its tag, by the wire type: a varint, eight bytes, a length and as
-- many bytes, or four bytes.
pub data Content : Type 0 where
  number : ℕ → Content
  eight : Str → Content
  sized : Str → Content
  four : Str → Content

abbrev pub wire_type_of : Content → ℕ
wire_type_of (number v) = 0
wire_type_of (eight s) = 1
wire_type_of (sized s) = 2
wire_type_of (four s) = 5

abbrev pub encode_content : Content → Str
encode_content (number v) = varint v
encode_content (eight s) = s
encode_content (sized s) = varint (length s) ++ s
encode_content (four s) = s

abbrev pub IsContent : Content → Type 0
IsContent (number v) = v < 2 ^ 64
IsContent (eight s) = length s ≡ 8
IsContent (sized s) = Unit
IsContent (four s) = length s ≡ 4

-- A field of the message, or one of another number.
pub data Part : Type 0 where
  known : Field → Part
  unknown : ℕ → Content → Part

abbrev pub tag_of : ℕ → Content → ℕ
tag_of n u = n * 8 + wire_type_of u

abbrev pub encode_part : Part → Str
encode_part (known f) = encode f
encode_part (unknown n u) = varint (tag_of n u) ++ encode_content u

abbrev pub encode_parts : List Part → Str
encode_parts [] = []
encode_parts (p ∷ ps) = encode_part p ++ encode_parts ps

abbrev pub IsPart : Part → Type 0
IsPart (known f) = IsSmall f
IsPart (unknown n u) = (4 < n) × (n < 2 ^ 29) × IsContent u

-- Only the fields of the message change it.
abbrev pub apply_part : Part → Message → Message
apply_part (known f) m = apply f m
apply_part (unknown n u) m = m

abbrev pub apply_parts : List Part → Message → Message
apply_parts [] m = m
apply_parts (p ∷ ps) m = apply_parts ps (apply_part p m)
