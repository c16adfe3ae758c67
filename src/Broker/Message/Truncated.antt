-- ===== src/Broker/Message/Truncated.antt =====
-- `Unmarshal` of broker/message.pb.go on the encoding of fields that is cut off within the last.
use kuja.Prelude.{
  ℕ, suc, ◌+◌, ◌-◌, ◌^◌, ◌<◌, ◌≡◌, refl, ap, ◌∙◌, arith, Str, List, ◌∷◌, ◌++◌, length,
  length-append, All,
}
use kuja.Broker.Message.{Message, err, unexpected_eof}
use kuja.Broker.Message.Unmarshal.{decode_field, unmarshal_loop, unmarshal}
use kuja.Broker.Message.Format.{Field, encode}
use kuja.Broker.Message.Decoding.{before_end}
use kuja.Broker.Message.Parts.{Part, IsPart, encode_parts, apply_parts}
use kuja.Broker.Message.Unknown.{unmarshal_loop-front, parts_short}
use kuja.Broker.Message.Cut.{field_cut, KeepsTexts}

module _ (bytes : Str) (fits : length bytes < 2 ^ 63) where
  loop_fails :
      (rounds i : ℕ) (m m' : Message)
      → i < length bytes
      → decode_field bytes i m ≡ err unexpected_eof m'
      → unmarshal_loop (suc rounds) bytes i m ≡ err unexpected_eof m'
  unfolding unmarshal_loop
  loop_fails rounds i m m' h e = rw (before_end i (length bytes) h, unmarshal_loop, e)

-- On the encoding of fields, of the message and of other numbers, that is cut off within a last
-- field of the message, Unmarshal returns the error of unexpected EOF, and the message has what the
-- fields before have set, but for the retry count.
pub unmarshal-truncated :
    (ps : List Part) (f : Field) (b c : ℕ) (cut tail : Str) (m : Message)
    → All IsPart ps
    → encode f ≡ c ∷ (cut ++ (b ∷ tail))
    → length (encode_parts ps ++ encode f) < 2 ^ 63
    → (m' : Message) × (unmarshal (encode_parts ps ++ (c ∷ cut)) m ≡ err unexpected_eof m')
      × KeepsTexts (apply_parts ps m) m'
unfolding unmarshal
unmarshal-truncated ps f b c cut tail m all e fits =
    let bytes = encode_parts ps ++ (c ∷ cut) in
    let whole = length-append (encode_parts ps) (encode f) in
    let front = length-append (encode_parts ps) (c ∷ cut) in
    let longer = ap {B = ℕ} length e ∙ ap suc (length-append cut (b ∷ tail)) in
    let room : length bytes < 2 ^ 63 = omega (arith, whole, front, longer) in
    let left : ℕ = length bytes - length ps in
    let rounds : length bytes + 1 ≡ length ps + suc left = omega (arith, parts_short ps, front) in
    let (run, at) =
      unmarshal_loop-front bytes room ps (suc left) 0 (c ∷ cut) m all (refl, omega arith) in
    let i : ℕ = 0 + length (encode_parts ps) in
    let (m', stops, kept) =
      field_cut bytes room (apply_parts ps m) i b cut tail f c e at (omega (arith, whole)) in
    (
      m',
      rw rounds
          (run ∙ loop_fails bytes room left i (apply_parts ps m) m' (omega (arith, front)) stops),
      kept,
    )
