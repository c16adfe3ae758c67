-- ===== src/Broker/Message/Size.antt =====
-- broker/message.pb.go: `sovMessage`, `sozMessage` and `Message.Size`.
use kuja.Prelude.{ℕ, zero, suc, ◌+◌, ◌-◌, ◌*◌, ◌/◌, ◌%◌, ◌^◌, ltb, ◌==◌, if◌then◌else◌}
use kuja.Prelude.{Str, Option, none, some, [], ◌∷◌, length}
use kuja.Prelude.Dict.{Dict}
use kuja.Broker.Message.{Message, entries, negative}
use Prim.Native.Nat.{bit_xor}

-- `for { n++; x >>= 7; if x == 0 { break } }`: `x` falls in each round, so `x` rounds are enough.
unfoldable pub sov_loop : ℕ → ℕ → ℕ → ℕ
sov_loop zero x n = n + 1
sov_loop (suc rounds) x n =
    let more = sov_loop rounds (x / 128) (n + 1) in if x / 128 == 0 then n + 1 else more

unfoldable pub sov_message : ℕ → ℕ
unfolding sov_loop
sov_message x = sov_loop x x 0

-- `uint64(int64(x) >> 63)` has all bits of the sign.
unfoldable pub soz_message : ℕ → ℕ
soz_message x = sov_message (bit_xor (x * 2 % 2 ^ 64) (if negative x then 2 ^ 64 - 1 else 0))

-- `uint64(r)` for an int32: the sign is extended.
abbrev pub extend : ℕ → ℕ
extend r = if ltb r (2 ^ 31) then r else r + (2 ^ 64 - 2 ^ 32)

unfoldable pub map_entry_size : Str → Str → ℕ
map_entry_size k v = 1 + length k + sov_message (length k) + 1 + length v + sov_message (length v)

unfoldable pub header_size : Dict Str → ℕ
header_size [] = 0
header_size ((k, v) ∷ m) = map_entry_size k v + 1 + sov_message (map_entry_size k v) + header_size m

abbrev pub text_size : Str → ℕ
text_size s = if ltb 0 (length s) then 1 + length s + sov_message (length s) else 0

abbrev pub body_size : Option Str → ℕ
body_size none = 0
body_size (some b) = text_size b

unfoldable pub size : Message → ℕ
size m =
    text_size m.id
    + header_size (entries m.header)
    + (if m.retry == 0 then 0 else 1 + sov_message (extend m.retry))
    + body_size m.body
