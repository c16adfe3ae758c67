-- ===== src/Broker/Message/Malformed.antt =====
-- `Unmarshal` on data with a length prefix that is negative as an int, which no check refuses.
use kuja.Prelude.{ℕ, zero, suc, ◌+◌, ◌-◌, ◌^◌, ◌≤◌, ◌<◌, ◌≡◌, refl, ap, ◌∙◌, arith, false}
use kuja.Prelude.{Str, some, [], ◌∷◌, ◌++◌, length, length-append}
use kuja.Prelude.Dict.{insert}
use kuja.Broker.Message.{Message, ok, panic, stuck, add64, past_end, entries, then_run}
use kuja.Broker.Message.Unmarshal.{
  read_text, slice, decode_id, decode_header, decode_field, unmarshal_loop, unmarshal,
}
use kuja.Broker.Message.Format.{groups, varint, text, payload}
use kuja.Broker.Message.Scan.{At, At-append, read_varint_lem, past_end-false}
use kuja.Broker.Message.Decoding.{read_tag, read_tagged, loop_step, before_end}
use mathlib.Core.List.{append-nil}
use mathlib.Core.Path.{subst}

-- A negative length moves the end before the start, or makes it negative.
past_end_negative :
    (start n l : ℕ)
    → 2 ^ 63 ≤ n
    → n < 2 ^ 64
    → start ≤ l
    → l < 2 ^ 63
    → past_end (add64 start n) l ≡ false
past_end_negative start n l h k room fits = ground arith

slice_negative :
    (bytes : Str) (start n : ℕ) (m : Message)
    → 2 ^ 63 ≤ n
    → n < 2 ^ 64
    → start ≤ length bytes
    → length bytes < 2 ^ 63
    → slice bytes start (add64 start n) m ≡ panic
unfolding slice
slice_negative bytes start n m h k room fits = ground arith

unmarshal-loop :
    (bytes : Str) (m : Message) → unmarshal bytes m ≡ unmarshal_loop (length bytes + 1) bytes 0 m
unfolding unmarshal
unmarshal-loop bytes m = refl

loop_first :
    (bytes : Str) (rounds i : ℕ) (m : Message)
    → i < length bytes
    → unmarshal_loop (suc rounds) bytes i m
      ≡ then_run (unmarshal_loop rounds bytes) (decode_field bytes i m)
unfolding unmarshal_loop
loop_first bytes rounds i m h = rw (before_end i (length bytes) h, unmarshal_loop)

unmarshal_first :
    (bytes : Str) (m : Message)
    → 0 < length bytes
    → unmarshal bytes m ≡ then_run (unmarshal_loop (length bytes) bytes) (decode_field bytes 0 m)
unmarshal_first bytes m h =
    let e : length bytes + 1 ≡ suc (length bytes) = omega arith in
    unmarshal-loop bytes m
    ∙ ap (λ (n : ℕ). unmarshal_loop n bytes 0 m) e
    ∙ loop_first bytes (length bytes) 0 m h

-- A message whose first field is an `Id` with a negative length.
abbrev pub negative_id : ℕ → Str → Str
negative_id n rest = 0xa ∷ (varint n ++ rest)

module _ (n : ℕ) (rest : Str) (m : Message) (is_negative : 2 ^ 63 ≤ n) (word : n < 2 ^ 64) where
  read_text_negative :
      length (negative_id n rest) < 2 ^ 63 → read_text (negative_id n rest) 1 m ≡ panic
  unfolding read_text
  read_text_negative fits =
      let bytes = negative_id n rest in
      let at : At bytes 1 (varint n ++ rest) = (refl, omega arith) in
      let start = 1 + length (varint n) in
      let room : start ≤ length bytes = omega (arith, length-append (varint n) rest) in
      rw (read_varint_lem bytes fits m n 1 rest word at) (
        rw (past_end_negative start n (length bytes) is_negative word room fits)
          (rw (slice_negative bytes start n m is_negative word room fits)))

  decode_field_negative :
      length (negative_id n rest) < 2 ^ 63 → decode_field (negative_id n rest) 0 m ≡ panic
  unfolding decode_field decode_id
  decode_field_negative fits =
      let (tag, at) =
        read_tag (negative_id n rest) fits 0xa 0 (varint n ++ rest) m (omega arith)
          (refl, omega arith) in
      rw tag (rw (read_text_negative fits))

  -- `Unmarshal` panics on any data that begin with an `Id` field of negative length.
  pub unmarshal-negative_id :
      length (negative_id n rest) < 2 ^ 63 → unmarshal (negative_id n rest) m ≡ panic
  unmarshal-negative_id fits =
      unmarshal_first (negative_id n rest) m (omega arith) ∙ rw (decode_field_negative fits)

-- A `Header` field whose length, 2^64 - 11, moves the index back to the start of the data.
abbrev pub back : ℕ
back = 2 ^ 64 - 11

abbrev pub endless : Str → Str → Str
endless k v = 0x12 ∷ (varint back ++ payload k v)

length-back : length (varint back) ≡ 10
unfolding groups
length-back = refl

module _ (k v : Str) (fits : length (endless k v) < 2 ^ 63) (m : Message) where
  decode_field-endless :
      decode_field (endless k v) 0 m
      ≡ ok 0 (record m { header = some (insert k v (entries m.header)) })
  unfolding decode_field decode_header
  decode_field-endless =
      let bytes = endless k v in
      let (tag, at) =
        read_tag bytes fits 0x12 0 (varint back ++ payload k v) m (omega arith)
          (refl, omega arith) in
      let number = read_varint_lem bytes fits m back 1 (payload k v) (omega arith) at in
      let start : ℕ = 1 + length (varint back) in
      let at_entry : At bytes start (payload k v) =
        At-append bytes (varint back) (payload k v) 1 at in
      let at_key : At bytes start (text 0xa k ++ (text 0x12 v ++ [])) =
        subst (At bytes start) (rw (append-nil (text 0x12 v))) at_entry in
      let key = read_tagged bytes fits 0xa start k (text 0x12 v ++ []) m (omega arith) at_key in
      let value =
        read_tagged bytes fits 0x12 (start + length (text 0xa k)) v [] m (omega arith) key.2 in
      let post : add64 start back ≡ 0 = ap (λ (n : ℕ). add64 (1 + n) back) length-back in
      let inside = past_end-false 0 (length bytes) (omega arith) in
      rw (tag, number) (rw (post, inside) (rw (key.0, key.1) (rw (value.0, value.1))))

-- However many rounds the loop is given, it does not leave these data: `Unmarshal` does not return.
pub unmarshal_loop-endless :
    (k v : Str)
    → length (endless k v) < 2 ^ 63
    → (rounds : ℕ) (m : Message) → unmarshal_loop rounds (endless k v) 0 m ≡ stuck
unmarshal_loop-endless k v fits zero m = unfold unmarshal_loop in refl
unmarshal_loop-endless k v fits (suc rounds) m =
    loop_step (endless k v) fits rounds 0 0 m _ (before_end 0 (length (endless k v)) (omega arith))
      (decode_field-endless k v fits m)
    ∙ unmarshal_loop-endless k v fits rounds
        (record m { header = some (insert k v (entries m.header)) })
