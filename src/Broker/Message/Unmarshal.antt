-- ===== src/Broker/Message/Unmarshal.antt =====
-- broker/message.pb.go: `skipMessage` and `Message.Unmarshal`, over the data and the index `iNdEx`.
use kuja.Prelude.{ℕ, zero, suc, ◌+◌, ◌-◌, ◌*◌, ◌/◌, ◌%◌, ◌^◌, ltb, ◌==◌, if◌then◌else◌}
use kuja.Prelude.{Str, some, [], ◌∷◌, length, take, drop, true, false, not, ◌||◌}
use kuja.Prelude.Dict.{insert}
use kuja.Broker.Message.{
  Message, ok, err, M, ◌>>=◌, ◌>>◌, pure, throw, fault, modify, check, unexpected_eof,
  wrong_wire_type, illegal_wire_type, id_field, header_field, retry_field, body_field, add64,
  negative, index_below, past_end, entries, stuck,
}
use kuja.Broker.Message.Size.{sov_message}
use Prim.Native.Nat.{bit_and, bit_or}

-- `acc |= (T(b) & 0x7F) << shift` for a type `T` of `w` bits; a shift past the width gives 0.
abbrev pub or_group : ℕ → ℕ → ℕ → ℕ → ℕ
or_group w acc b shift = bit_or acc (bit_and b 0x7f * 2 ^ shift % 2 ^ w)

-- The loop over the bytes from `iNdEx` on.
unfoldable pub scan : Str → ℕ → ℕ → ℕ → M (ℕ × ℕ)
scan [] i shift acc = throw unexpected_eof
scan (b ∷ rest) i shift acc =
    let sum = or_group 64 acc b shift in
    let more = scan rest (i + 1) (shift + 7) sum in if ltb b 0x80 then pure (sum, i + 1) else more

-- A negative index passes the test `iNdEx >= l` and panics at `data[iNdEx]`.
unfoldable pub read_varint : Str → ℕ → M (ℕ × ℕ)
read_varint bytes i = if negative i then fault else scan (drop i bytes) i 0 0

-- `data[lo:hi]`
unfoldable pub slice : Str → ℕ → ℕ → M Str
slice bytes lo hi =
    if negative hi || ltb hi lo || ltb (length bytes) hi
    then fault
    else pure (take (hi - lo) (drop lo bytes))

-- A length and as many bytes; the check of the end reads the length as an int.
unfoldable pub read_text : Str → ℕ → M (Str × ℕ)
read_text bytes i = do
  (n, start) ← read_varint bytes i
  let post = add64 start n
  check (not (past_end post (length bytes))) unexpected_eof
  s ← slice bytes start post
  pure (s, post)

-- `case 0` of `skipMessage`
unfoldable pub skip_varint : Str → ℕ → M ℕ
skip_varint [] i = throw unexpected_eof
skip_varint (b ∷ rest) i =
    let more = skip_varint rest (i + 1) in if ltb b 0x80 then pure (i + 1) else more

-- Groups nest, and a negative length moves the index back: hence the fuel.
unfoldable mutual
  pub skip_message : ℕ → Str → M ℕ
  skip_message zero bytes = λ m. stuck
  skip_message (suc fuel) [] = fault
  skip_message (suc fuel) (b ∷ rest) = read_varint (b ∷ rest) 0 >>= λ (wire, i).
      elim (wire % 8 == 3) [
        | true ↦ skip_group fuel (b ∷ rest) i
        | false ↦
            if wire % 8 == 0
            then skip_varint (drop i (b ∷ rest)) i
            else if wire % 8 == 1
            then pure (add64 i 8)
            else if wire % 8 == 2
            then (read_varint (b ∷ rest) i >>= λ (n, j). pure (add64 j n))
            else if wire % 8 == 4
            then pure i
            else if wire % 8 == 5
            then pure (add64 i 4)
            else throw (illegal_wire_type (wire % 8))
      ]

  pub skip_group : ℕ → Str → ℕ → M ℕ
  skip_group zero bytes start = λ m. stuck
  skip_group (suc fuel) bytes start = read_varint bytes start >>= λ (wire, i).
      elim (wire % 8 == 4) [
        | true ↦ pure i
        | false ↦ slice bytes start (length bytes) >>= λ rest.
            skip_message fuel rest >>= λ next. skip_group fuel bytes (add64 start next)
      ]

unfoldable pub decode_id : Str → ℕ → ℕ → M ℕ
decode_id bytes wire_type i = do
  check (wire_type == 2) (wrong_wire_type wire_type id_field)
  (s, post) ← read_text bytes i
  modify (λ m. record m { id = s })
  pure post

-- The tags inside the entry are read and not looked at, and the two texts may end behind the entry.
unfoldable pub decode_header : Str → ℕ → ℕ → M ℕ
decode_header bytes wire_type i = do
  check (wire_type == 2) (wrong_wire_type wire_type header_field)
  (n, start) ← read_varint bytes i
  let post = add64 start n
  check (not (past_end post (length bytes))) unexpected_eof
  (key_tag, i₁) ← read_varint bytes start
  (k, i₂) ← read_text bytes i₁
  (value_tag, i₃) ← read_varint bytes i₂
  (v, i₄) ← read_text bytes i₃
  modify (λ m. record m { header = some (insert k v (entries m.header)) })
  pure post

-- `m.Retry` is the accumulator of its loop.
unfoldable pub scan_retry : Str → ℕ → ℕ → M ℕ
scan_retry [] i shift m = err unexpected_eof m
scan_retry (b ∷ rest) i shift m =
    let m' : Message = record m { retry = or_group 32 m.retry b shift } in
    let more = scan_retry rest (i + 1) (shift + 7) m' in if ltb b 0x80 then ok (i + 1) m' else more

unfoldable pub decode_retry : Str → ℕ → ℕ → M ℕ
decode_retry bytes wire_type i = do
  check (wire_type == 0) (wrong_wire_type wire_type retry_field)
  if negative i then fault else scan_retry (drop i bytes) i 0

unfoldable pub decode_body : Str → ℕ → ℕ → M ℕ
decode_body bytes wire_type i = do
  check (wire_type == 2) (wrong_wire_type wire_type body_field)
  (s, post) ← read_text bytes i
  modify (λ m. record m { body = some s })
  pure post

-- The index goes back by the least size of the tag, not by the size that was read.
unfoldable pub skip_unknown : Str → ℕ → ℕ → M ℕ
skip_unknown bytes wire i = do
  let start = (i + 2 ^ 64 - sov_message wire) % 2 ^ 64
  rest ← slice bytes start (length bytes)
  skippy ← skip_message (length bytes + 1) rest
  check (not (past_end (add64 start skippy) (length bytes))) unexpected_eof
  pure (add64 start skippy)

-- One round of the loop of `Unmarshal`.
unfoldable pub decode_field : Str → ℕ → M ℕ
decode_field bytes i = read_varint bytes i >>= λ (wire, j).
    let number = wire / 8 % 2 ^ 32 in
    let wire_type = wire % 8 in
    if number == 1
    then decode_id bytes wire_type j
    else if number == 2
    then decode_header bytes wire_type j
    else if number == 3
    then decode_retry bytes wire_type j
    else if number == 4
    then decode_body bytes wire_type j
    else skip_unknown bytes wire j

unfoldable pub unmarshal_loop : ℕ → Str → ℕ → M (Unit {0})
unmarshal_loop zero bytes i = λ m. stuck
unmarshal_loop (suc rounds) bytes i = elim (index_below i (length bytes)) [
  | true ↦ decode_field bytes i >>= unmarshal_loop rounds bytes
  | false ↦ pure tt
]

-- A round that moves on takes a byte at least.
unfoldable pub unmarshal : Str → M (Unit {0})
unfolding unmarshal_loop decode_field decode_id decode_header decode_retry decode_body skip_unknown
    read_text read_varint scan slice scan_retry skip_message skip_group skip_varint
unmarshal bytes = unmarshal_loop (length bytes + 1) bytes 0
