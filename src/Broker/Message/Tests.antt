-- ===== src/Broker/Message/Tests.antt =====
-- Runs of the codec of broker/message.pb.go, and its theorems at concrete messages.
use kuja.Prelude.{
  Str, List, ◌≡◌, ◌<◌, refl, some, [], ◌∷◌, codes, str_eq, ◌-◌, ◌^◌, ◌++◌, arith, length,
}
use kuja.Prelude.Dict.{lookup, insert}
use kuja.Broker.Message.{Message, blank, ok, err, panic, stuck, unexpected_eof}
use kuja.Broker.Message.Size.{size, sov_message, map_entry_size, header_size}
use kuja.Broker.Message.Marshal.{marshal, put_byte, put_copy, put_varint, put_text, put_header}
use kuja.Broker.Message.Unmarshal.{unmarshal, unmarshal_loop}
use kuja.Broker.Message.Format.{retry, body, groups, encode, encode_all, fields}
use kuja.Broker.Message.Encoding.{marshal-encoding}
use kuja.Broker.Message.Parts.{Part, known, unknown, number, sized, four, encode_parts, apply_parts}
use kuja.Broker.Message.Unknown.{unmarshal-encode_parts}
use kuja.Broker.Message.Cut.{KeepsTexts}
use kuja.Broker.Message.Truncated.{unmarshal-truncated}
use kuja.Broker.Message.RoundTrip.{SameMessage, unmarshal-marshal}
use kuja.Broker.Message.Malformed.{
  negative_id, unmarshal-negative_id, endless, unmarshal_loop-endless,
}
use mathlib.Core.List.Perm

abbrev greeting : Message
greeting = record {
  id = codes "a1";
  header = some ((codes "k", codes "v") ∷ []);
  retry = 2 ^ 32 - 1;
  body = some (codes "hi");
}

marshal-greeting :
    marshal (λ ks. ks) greeting
    ≡ some (
        0xa ∷ 2 ∷ b'a' ∷ b'1' ∷ 0x12 ∷ 6 ∷ 0xa ∷ 1 ∷ b'k' ∷ 0x12 ∷ 1 ∷ b'v' ∷ 0x18 ∷ 255 ∷ 255 ∷ 255
        ∷ 255 ∷ 255 ∷ 255 ∷ 255 ∷ 255 ∷ 255 ∷ 1 ∷ 0x22 ∷ 2 ∷ b'h' ∷ b'i' ∷ [])
unfolding marshal size sov_message map_entry_size header_size put_byte put_copy put_varint put_text
    put_header lookup str_eq
marshal-greeting = refl

-- The order of the fields, and a field that the message does not have (number 5).
unmarshal-greeting :
    unmarshal
      (0x22 ∷ 2 ∷ b'h' ∷ b'i' ∷ 0x12 ∷ 6 ∷ 0xa ∷ 1 ∷ b'k' ∷ 0x12 ∷ 1 ∷ b'v' ∷ 0x2a ∷ 1 ∷ 7 ∷ 0xa ∷ 2
        ∷ b'a' ∷ b'1' ∷ 0x18 ∷ 255 ∷ 255 ∷ 255 ∷ 255 ∷ 255 ∷ 255 ∷ 255 ∷ 255 ∷ 255 ∷ 1 ∷ [])
      blank
    ≡ ok tt greeting
unfolding unmarshal insert sov_message str_eq
unmarshal-greeting = refl

-- The message keeps what was decoded before the end of the data.
unmarshal_cut :
    unmarshal (0xa ∷ 1 ∷ b'x' ∷ 0x22 ∷ 9 ∷ []) blank
    ≡ err unexpected_eof (record blank { id = codes "x" })
unfolding unmarshal
unmarshal_cut = refl

-- The order in which the tests visit the keys of a header.
abbrev as_listed : List Str → List Str
as_listed ks = ks

greeting_fits : size greeting < 2 ^ 63
unfolding size sov_message map_entry_size header_size
greeting_fits = omega arith

marshal-encoding_example :
    marshal as_listed greeting ≡ some (encode_all (fields as_listed greeting))
marshal-encoding_example = marshal-encoding as_listed greeting (Perm.refl _) (tt, tt)

unmarshal-marshal_example :
    (bytes : Str) × (m' : Message) × (marshal as_listed greeting ≡ some bytes)
    × (unmarshal bytes blank ≡ ok tt m')
    × SameMessage greeting m'
unmarshal-marshal_example =
    unmarshal-marshal as_listed greeting (Perm.refl _) (tt, tt) (omega arith) greeting_fits

-- A retry count that stands twice in the data, 1 and then 2, and fields of other numbers.
abbrev some_parts : List Part
some_parts =
    unknown 5 (number 300)
    ∷ known (retry 1)
    ∷ unknown 1000 (sized (codes "zz"))
    ∷ known (retry 2)
    ∷ unknown 16 (four (codes "abcd"))
    ∷ known (body (codes "x"))
    ∷ []

some_parts_fit : length (encode_parts some_parts) < 2 ^ 63
unfolding groups
some_parts_fit = omega arith

unmarshal-encode_parts_example :
    unmarshal (encode_parts some_parts) blank ≡ ok tt (apply_parts some_parts blank)
unmarshal-encode_parts_example =
    unmarshal-encode_parts some_parts blank
      (
        (omega arith, omega arith, omega arith),
        (
          omega arith,
          (
            (omega arith, omega arith, tt),
            (omega arith, ((omega arith, omega arith, refl), (tt, tt))),
          ),
        ),
      )
      some_parts_fit

minus_one_fits : length (negative_id (2 ^ 64 - 1) []) < 2 ^ 63
unfolding groups
minus_one_fits = omega arith

unmarshal-negative_id_example : unmarshal (negative_id (2 ^ 64 - 1) []) blank ≡ panic
unmarshal-negative_id_example =
    unmarshal-negative_id (2 ^ 64 - 1) [] blank (omega arith) (omega arith) minus_one_fits

endless_fits : length (endless [] []) < 2 ^ 63
unfolding groups
endless_fits = omega arith

unmarshal_loop-endless_example : unmarshal_loop 1000 (endless [] []) 0 blank ≡ stuck
unmarshal_loop-endless_example = unmarshal_loop-endless [] [] endless_fits 1000 blank

whole_body_fits :
    length (encode_parts (known (retry 1) ∷ []) ++ encode (body (codes "xy"))) < 2 ^ 63
unfolding groups
whole_body_fits = omega arith

-- The last byte of a body is missing.
unmarshal-truncated_example :
    (m' : Message) × (unmarshal
        (encode_parts (known (retry 1) ∷ []) ++ (0x22 ∷ 2 ∷ codes "x"))
        blank
      ≡ err unexpected_eof m')
    × KeepsTexts (apply_parts (known (retry 1) ∷ []) blank) m'
unfolding groups
unmarshal-truncated_example =
    unmarshal-truncated (known (retry 1) ∷ []) (body (codes "xy")) b'y' 0x22 (2 ∷ codes "x") []
      blank (omega arith, tt) refl whole_body_fits
