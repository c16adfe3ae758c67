-- ===== src/Broker/Message/Marshal.antt =====
-- broker/message.pb.go: `encodeVarintMessage`, `MarshalTo` and `Marshal`, over a buffer and an offset.
use kuja.Prelude.{ℕ, zero, suc, ◌+◌, ◌-◌, ◌/◌, ◌%◌, leb, ltb, ◌==◌, if◌then◌else◌}
use kuja.Prelude.{Str, Option, none, some, List, [], ◌∷◌, ◌++◌, map, length, take, drop, replicate}
use kuja.Prelude.{true, false}
use kuja.Prelude.Dict.{Dict, lookup}
use kuja.Broker.Message.{Message, entries}
use kuja.Broker.Message.Size.{extend, map_entry_size, size}
use mathlib.Core.Option
use Prim.Native.Nat.{bit_and, bit_or, min}

-- A write into the buffer at an offset; `none` is a panic, an index out of range.
abbrev pub Writer : Type 0
Writer = Str → ℕ → Option (Str × ℕ)

abbrev pub then_write : Writer → Option (Str × ℕ) → Option (Str × ℕ)
then_write g none = none
then_write g (some (buf, i)) = g buf i

infixl 5 ◌>>◌
abbrev pub ◌>>◌ : Writer → Writer → Writer
◌>>◌ f g buf i = then_write g (f buf i)

abbrev pub skip : Writer
skip buf i = some (buf, i)

-- `data[i] = b`
unfoldable pub store : Str → ℕ → ℕ → Option Str
store [] i b = none
store (x ∷ buf) zero b = some (b ∷ buf)
store (x ∷ buf) (suc i) b = Option.map (λ rest. x ∷ rest) (store buf i b)

-- `data[i] = b; i++`
unfoldable pub put_byte : ℕ → Writer
unfolding store
put_byte b buf i = Option.map (λ written. (written, i + 1)) (store buf i b)

-- The builtin `copy`.
unfoldable pub overwrite : Str → Str → Str
overwrite [] src = []
overwrite (x ∷ dst) [] = x ∷ dst
overwrite (x ∷ dst) (b ∷ src) = b ∷ overwrite dst src

-- `i += copy(data[i:], s)`
unfoldable pub put_copy : Str → Writer
unfolding overwrite
put_copy s buf i =
    if leb i (length buf)
    then some (take i buf ++ overwrite (drop i buf) s, i + min (length buf - i) (length s))
    else none

-- `encodeVarintMessage`: `v` falls in each round, so `v` rounds are enough.
unfoldable pub put_varint_loop : ℕ → ℕ → Writer
put_varint_loop zero v = put_byte (v % 256)
put_varint_loop (suc rounds) v = elim (leb 128 v) [
  | true ↦ put_byte (bit_or (bit_and v 0x7f) 0x80 % 256) >> put_varint_loop rounds (v / 128)
  | false ↦ put_byte (v % 256)
]

unfoldable pub put_varint : ℕ → Writer
unfolding put_varint_loop
put_varint v = put_varint_loop v v

unfoldable pub put_text : ℕ → Str → Writer
put_text tag s = do put_byte tag; put_varint (length s); put_copy s

-- `m.Header[k]`, the empty string where the key is missing.
abbrev pub value_of : Str → Dict Str → Str
value_of k m = elim (lookup k m) [ none ↦ [] | some v ↦ v ]

unfoldable pub put_entry : Str → Str → Writer
unfolding put_text
put_entry k v = do put_byte 0x12; put_varint (map_entry_size k v); put_text 0xa k; put_text 0x12 v

-- `for _, k := range keysForHeader`
unfoldable pub put_header : Dict Str → List Str → Writer
unfolding put_entry
put_header m [] = skip
put_header m (k ∷ ks) = do put_entry k (value_of k m); put_header m ks

-- A field that is empty is left out.
abbrev pub put_id : Str → Writer
put_id s = if ltb 0 (length s) then put_text 0xa s else skip

abbrev pub put_retry : ℕ → Writer
put_retry r = if r == 0 then skip else (put_byte 0x18 >> put_varint (extend r))

abbrev pub put_body : Option Str → Writer
put_body none = skip
put_body (some b) = if ltb 0 (length b) then put_text 0x22 b else skip

abbrev pub keys : Dict Str → List Str
keys = map (λ e. e.0)

-- `sort` is sortkeys.Strings of github.com/gogo/protobuf.
module _ (sort : List Str → List Str) where
  unfoldable pub marshal_to : Message → Writer
  marshal_to m = do
    put_id m.id
    put_header (entries m.header) (sort (keys (entries m.header)))
    put_retry m.retry
    put_body m.body

  -- `none` is a panic; the error that `MarshalTo` returns is always nil.
  unfoldable pub marshal : Message → Option Str
  unfolding marshal_to
  marshal m = Option.map (λ (buf, n). take n buf) (marshal_to m (replicate (size m) 0) 0)
