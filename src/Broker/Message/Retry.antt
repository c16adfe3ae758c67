-- ===== src/Broker/Message/Retry.antt =====
-- The loop of `Unmarshal` for the field `Retry`, which joins what it reads to `m.Retry`.
use kuja.Prelude.{ℕ, zero, suc, ◌+◌, ◌*◌, ◌/◌, ◌%◌, ◌^◌, ◌≤◌, ◌<◌, ◌≡◌, ◌∙◌, arith}
use kuja.Prelude.{leb, ltb, Bool-cases, inl, inr, false, lt→ltb}
use kuja.Prelude.{Str, ◌∷◌, ◌++◌, length}
use kuja.Prelude.Bits.{bit_or-zero, bit_or_assoc}
use kuja.Prelude.Words.{next_sum, next_sum_low, next_sum_word, next_sum_rest}
use kuja.Broker.Message.{Message, ok}
use kuja.Broker.Message.Size.{extend}
use kuja.Broker.Message.Unmarshal.{scan_retry}
use kuja.Broker.Message.Format.{groups, varint}
use kuja.Broker.Message.Writes.{groups_more, groups_last}
use kuja.Broker.Message.Scan.{or_group_last, or_group_inner, next_index}
use Prim.Native.Nat.{bit_or}

-- The message with `acc` joined to the value that the field had at first.
abbrev joined : Message → ℕ → Message
joined m acc = record m { retry = bit_or m.retry acc }

module _ (v i shift acc : ℕ) (rest : Str) (m : Message) (low : acc < 2 ^ shift)
    (word : acc < 2 ^ 32) where
  retry_last :
      v < 128
      → scan_retry (v ∷ rest) i shift (joined m acc)
        ≡ ok (i + 1) (joined m ((acc + v * 2 ^ shift) % 2 ^ 32))
  unfolding scan_retry
  retry_last h = rw (lt→ltb v 128 h, bit_or_assoc, or_group_last 32 acc v shift h low word)

  retry_inner :
      scan_retry ((v % 128 + 128) ∷ rest) i shift (joined m acc)
      ≡ scan_retry rest (i + 1) (shift + 7) (joined m (next_sum 32 shift acc v))
  unfolding scan_retry
  retry_inner =
      let top : ltb (v % 128 + 128) 128 ≡ false = ground arith in
      rw (top, bit_or_assoc, or_group_inner 32 acc v shift low word)

retry_groups :
    (rounds v i shift acc : ℕ) (rest : Str) (m : Message)
    → v ≤ rounds
    → acc < 2 ^ shift
    → acc < 2 ^ 32
    → scan_retry (groups rounds v ++ rest) i shift (joined m acc)
      ≡ ok (i + length (groups rounds v)) (joined m ((acc + v * 2 ^ shift) % 2 ^ 32))
retry_groups zero v i shift acc rest m h low word =
    unfold groups in retry_last v i shift acc rest m low word (omega arith)
retry_groups (suc rounds) v i shift acc rest m h low word = elim (Bool-cases (leb 128 v)) [
  | inl more ↦
      rw
        (
          groups_more rounds v more,
          retry_inner v i shift acc (groups rounds (v / 128) ++ rest) m low word,
        )
        (retry_groups rounds (v / 128) (i + 1) (shift + 7) (next_sum 32 shift acc v) rest m
            (ground arith) (next_sum_low 32 shift acc v low) (next_sum_word 32 shift acc v low)
          ∙ rw (next_sum_rest 32 shift acc v low, next_index i (groups rounds (v / 128))))
  | inr last ↦
      rw (groups_last rounds v last) (retry_last v i shift acc rest m low word (ground arith))
]

-- The sign extension is cut off again.
extend_word : (r : ℕ) → r < 2 ^ 32 → (0 + extend r * 2 ^ 0) % 2 ^ 32 ≡ r
extend_word r h = ground arith

pub scan_retry_lem :
    (r i : ℕ) (rest : Str) (m : Message)
    → r < 2 ^ 32
    → scan_retry (varint (extend r) ++ rest) i 0 m
      ≡ ok (i + length (varint (extend r))) (record m { retry = bit_or m.retry r })
scan_retry_lem r i rest m h =
    let start : joined m 0 ≡ m = rw bit_or-zero in
    rw start at
      (retry_groups (extend r) (extend r) i 0 0 rest m (omega arith) (omega arith) (omega arith))
    ∙ rw (extend_word r h)
