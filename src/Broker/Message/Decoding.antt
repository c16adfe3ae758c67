-- ===== src/Broker/Message/Decoding.antt =====
-- `Unmarshal` on data that follow the wire format: each field does to the message what it says.
use kuja.Prelude.{ℕ, zero, suc, ◌+◌, ◌^◌, ◌≤◌, ◌<◌, ◌≡◌, refl, ◌∙◌, arith}
use kuja.Prelude.{true, false}
use kuja.Prelude.{Str, [], ◌∷◌, ◌++◌, length, length-append}
use kuja.Prelude.{some}
use kuja.Broker.Message.Retry.{scan_retry_lem}
use kuja.Prelude.Dict.{insert}
use kuja.Broker.Message.{Message, ok, index_below, entries}
use kuja.Broker.Message.Size.{extend}
use kuja.Broker.Message.Unmarshal.{
  read_varint, read_text, decode_id, decode_header, decode_retry, decode_body, decode_field,
  unmarshal_loop,
}
use kuja.Broker.Message.Format.{
  groups, varint, text, Field, id, entry, retry, body, payload, encode, apply,
}
use kuja.Broker.Message.Scan.{
  At, At-append, read_varint_lem, read_text_lem, negative-false, past_end-false, add64_small,
  next_index,
}
use mathlib.Core.List.{append_assoc}
use mathlib.Core.Path.{subst}
use Prim.Native.Nat.{bit_or}

-- A retry count of 32 bits.
abbrev pub IsSmall : Field → Type 0
IsSmall (retry r) = r < 2 ^ 32
IsSmall _ = Unit

pub encode_pos : (f : Field) → 0 < length (encode f)
encode_pos (id s) = omega arith
encode_pos (entry k v) = omega arith
encode_pos (retry r) = omega arith
encode_pos (body s) = omega arith

pub at_end : (i l : ℕ) → i ≡ l → l < 2 ^ 63 → index_below i l ≡ false
at_end i l e h = ground arith

pub before_end : (i l : ℕ) → i < l → index_below i l ≡ true
before_end i l h = ground arith

-- A number below 128 is one byte.
groups_one : (rounds v : ℕ) → v < 128 → groups rounds v ≡ v ∷ []
unfolding groups
groups_one zero v h = refl
groups_one (suc rounds) v h = ground arith

module _ (bytes : Str) (fits : length bytes < 2 ^ 63) where
  pub read_tag :
      (tag i : ℕ) (rest : Str) (m : Message)
      → tag < 128
      → At bytes i (tag ∷ rest)
      → (read_varint bytes i m ≡ ok (tag, i + 1) m) × At bytes (i + 1) rest
  read_tag tag i rest m h at =
      let one = groups_one tag tag h in
      let at' : At bytes i (varint tag ++ rest) = rw one at in
      (
        rw one at (read_varint_lem bytes fits m tag i rest (omega arith) at'),
        At-append bytes (tag ∷ []) rest i at,
      )

  decode_id_lem :
      (s rest : Str) (i : ℕ) (m : Message)
      → At bytes i (text 0xa s ++ rest)
      → decode_field bytes i m ≡ ok (i + length (text 0xa s)) (record m { id = s })
  unfolding decode_field decode_id
  decode_id_lem s rest i m at =
      let (tag, at_text) = read_tag 0xa i ((varint (length s) ++ s) ++ rest) m (omega arith) at in
      rw (
        tag,
        read_text_lem bytes fits m s rest (i + 1) at_text,
        next_index i (varint (length s) ++ s),
      )

  decode_body_lem :
      (s rest : Str) (i : ℕ) (m : Message)
      → At bytes i (text 0x22 s ++ rest)
      → decode_field bytes i m ≡ ok (i + length (text 0x22 s)) (record m { body = some s })
  unfolding decode_field decode_body
  decode_body_lem s rest i m at =
      let (tag, at_text) = read_tag 0x22 i ((varint (length s) ++ s) ++ rest) m (omega arith) at in
      rw (
        tag,
        read_text_lem bytes fits m s rest (i + 1) at_text,
        next_index i (varint (length s) ++ s),
      )

  -- A tag, a length and a text, at an index.
  pub read_tagged :
      (tag i : ℕ) (s rest : Str) (m : Message)
      → tag < 128
      → At bytes i (text tag s ++ rest)
      → (read_varint bytes i m ≡ ok (tag, i + 1) m)
        × (read_text bytes (i + 1) m ≡ ok (s, i + length (text tag s)) m)
        × At bytes (i + length (text tag s)) rest
  read_tagged tag i s rest m h at =
      let (first, at_text) = read_tag tag i ((varint (length s) ++ s) ++ rest) m h at in
      (
        first,
        read_text_lem bytes fits m s rest (i + 1) at_text
            ∙ rw (next_index i (varint (length s) ++ s)),
        At-append bytes (text tag s) rest i at,
      )

  -- The texts of an entry, behind its tag and its length.
  module _ (k v p rest : Str) (i : ℕ) (m : Message) (entry_is : p ≡ text 0xa k ++ text 0x12 v) where
    texts : p ++ rest ≡ text 0xa k ++ (text 0x12 v ++ rest)
    texts = rw entry_is (append_assoc (text 0xa k) (text 0x12 v) rest)

    decode_header_run :
        At bytes i (text 0x12 p ++ rest)
        → decode_field bytes i m
          ≡ ok
              (i + length (text 0x12 p))
              (record m { header = some (insert k v (entries m.header)) })
    unfolding decode_field decode_header
    decode_header_run at =
        let size_bytes : Str = varint (length p) in
        let (first, at_size) = read_tag 0x12 i ((size_bytes ++ p) ++ rest) m (omega arith) at in
        let at_number : At bytes (i + 1) (size_bytes ++ (p ++ rest)) = rw append_assoc at at_size in
        let start : ℕ = i + 1 + length size_bytes in
        let at_entry : At bytes start (p ++ rest) =
          At-append bytes size_bytes (p ++ rest) (i + 1) at_number in
        let at_key : At bytes start (text 0xa k ++ (text 0x12 v ++ rest)) =
          subst (At bytes start) texts at_entry in
        let key = read_tagged 0xa start k (text 0x12 v ++ rest) m (omega arith) at_key in
        let value = read_tagged 0x12 (start + length (text 0xa k)) v rest m (omega arith) key.2 in
        let room : start + length p ≤ length bytes =
          omega (arith, length-append p rest, at_entry.1) in
        let post = add64_small start (length p) (length bytes) room fits in
        let inside = past_end-false (start + length p) (length bytes) room in
        let total : start + length p ≡ i + length (text 0x12 p) =
          omega (arith, length-append size_bytes p) in
        let number =
          read_varint_lem bytes fits m (length p) (i + 1) (p ++ rest) (omega arith) at_number in
        rw (first, number)
          (rw (post, inside) (rw (key.0, key.1) (rw (value.0, value.1) (rw total))))

  decode_header_lem :
      (k v rest : Str) (i : ℕ) (m : Message)
      → At bytes i (encode (entry k v) ++ rest)
      → decode_field bytes i m
        ≡ ok
            (i + length (encode (entry k v)))
            (record m { header = some (insert k v (entries m.header)) })
  decode_header_lem k v rest i m at = decode_header_run k v (payload k v) rest i m refl at

  decode_retry_lem :
      (r : ℕ) (rest : Str) (i : ℕ) (m : Message)
      → r < 2 ^ 32
      → At bytes i (encode (retry r) ++ rest)
      → decode_field bytes i m
        ≡ ok (i + length (encode (retry r))) (record m { retry = bit_or m.retry r })
  unfolding decode_field decode_retry
  decode_retry_lem r rest i m h at =
      let (tag, at_number) = read_tag 0x18 i (varint (extend r) ++ rest) m (omega arith) at in
      let here = negative-false (i + 1) (omega (arith, at_number.1)) in
      rw (tag, here)
        (rw (at_number.0, scan_retry_lem r (i + 1) rest m h, next_index i (varint (extend r))))

  pub decode_field-apply :
      (f : Field) (rest : Str) (i : ℕ) (m : Message)
      → IsSmall f
      → At bytes i (encode f ++ rest)
      → decode_field bytes i m ≡ ok (i + length (encode f)) (apply f m)
  decode_field-apply (id s) rest i m h at = decode_id_lem s rest i m at
  decode_field-apply (entry k v) rest i m h at = decode_header_lem k v rest i m at
  decode_field-apply (retry r) rest i m h at = decode_retry_lem r rest i m h at
  decode_field-apply (body s) rest i m h at = decode_body_lem s rest i m at

  pub loop_end :
      (rounds i : ℕ) (m : Message)
      → index_below i (length bytes) ≡ false
      → unmarshal_loop (suc rounds) bytes i m ≡ ok tt m
  unfolding unmarshal_loop
  loop_end rounds i m e = rw (e, unmarshal_loop)

  pub loop_step :
      (rounds i j : ℕ) (m m' : Message)
      → index_below i (length bytes) ≡ true
      → decode_field bytes i m ≡ ok j m'
      → unmarshal_loop (suc rounds) bytes i m ≡ unmarshal_loop rounds bytes j m'
  unfolding unmarshal_loop
  loop_step rounds i j m m' below step = rw (below, unmarshal_loop, step)
