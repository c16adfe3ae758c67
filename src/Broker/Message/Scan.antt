-- ===== src/Broker/Message/Scan.antt =====
-- The readers of `Unmarshal` on what the wire format puts at the index.
use kuja.Prelude.{ℕ, zero, suc, ◌+◌, ◌-◌, ◌*◌, ◌/◌, ◌%◌, ◌^◌, ◌≤◌, ◌<◌, ◌≡◌, ◌∙◌, arith}
use kuja.Prelude.{leb, ltb, Bool-cases, inl, inr, false, lt→ltb, lt→leb_false}
use kuja.Prelude.{Str, ◌∷◌, ◌++◌, length, drop, length-append, drop-append, take-append, drop-drop}
use kuja.Prelude.Bits.{low_seven}
use kuja.Prelude.Words.{or_group_sum, next_sum, next_sum_low, next_sum_word, next_sum_rest}
use kuja.Broker.Message.{Message, ok, add64, negative, past_end}
use kuja.Broker.Message.Unmarshal.{or_group, scan, read_varint, slice, read_text}
use kuja.Broker.Message.Format.{groups, varint}
use kuja.Broker.Message.Writes.{groups_more, groups_last}
use mathlib.Core.List.{append_assoc}
use native.Mathlib.Nat.{mod-eq_of_lt}

pub next_index : (i : ℕ) (s : Str) → i + 1 + length s ≡ i + suc (length s)
next_index i s = omega arith

-- A byte adds its low seven bits.
or_group_byte :
    (w acc b shift : ℕ)
    → acc < 2 ^ shift
    → acc < 2 ^ w
    → or_group w acc b shift ≡ (acc + b % 128 * 2 ^ shift) % 2 ^ w
or_group_byte w acc b shift low word = rw low_seven (or_group_sum w shift acc (b % 128) low word)

pub or_group_last :
    (w acc v shift : ℕ)
    → v < 128
    → acc < 2 ^ shift
    → acc < 2 ^ w
    → or_group w acc v shift ≡ (acc + v * 2 ^ shift) % 2 ^ w
or_group_last w acc v shift h low word =
    let e : v % 128 ≡ v = omega arith in rw e at (or_group_byte w acc v shift low word)

pub or_group_inner :
    (w acc v shift : ℕ)
    → acc < 2 ^ shift
    → acc < 2 ^ w
    → or_group w acc (v % 128 + 128) shift ≡ next_sum w shift acc v
or_group_inner w acc v shift low word =
    let e : (v % 128 + 128) % 128 ≡ v % 128 = omega arith in
    rw e at (or_group_byte w acc (v % 128 + 128) shift low word)

module _ (v i shift acc : ℕ) (rest : Str) (m : Message) (low : acc < 2 ^ shift)
    (word : acc < 2 ^ 64) where
  scan_last : v < 128 → scan (v ∷ rest) i shift acc m ≡ ok ((acc + v * 2 ^ shift) % 2 ^ 64, i + 1) m
  unfolding scan
  scan_last h = rw (lt→ltb v 128 h, or_group_last 64 acc v shift h low word)

  scan_inner :
      scan ((v % 128 + 128) ∷ rest) i shift acc m
      ≡ scan rest (i + 1) (shift + 7) (next_sum 64 shift acc v) m
  unfolding scan
  scan_inner =
      let top : ltb (v % 128 + 128) 128 ≡ false = ground arith in
      rw (top, or_group_inner 64 acc v shift low word)

scan-groups :
    (rounds v i shift acc : ℕ) (rest : Str) (m : Message)
    → v ≤ rounds
    → acc < 2 ^ shift
    → acc < 2 ^ 64
    → scan (groups rounds v ++ rest) i shift acc m
      ≡ ok ((acc + v * 2 ^ shift) % 2 ^ 64, i + length (groups rounds v)) m
scan-groups zero v i shift acc rest m h low word =
    unfold groups in scan_last v i shift acc rest m low word (omega arith)
scan-groups (suc rounds) v i shift acc rest m h low word = elim (Bool-cases (leb 128 v)) [
  | inl more ↦
      rw
        (
          groups_more rounds v more,
          scan_inner v i shift acc (groups rounds (v / 128) ++ rest) m low word,
        )
        (scan-groups rounds (v / 128) (i + 1) (shift + 7) (next_sum 64 shift acc v) rest m
            (ground arith) (next_sum_low 64 shift acc v low) (next_sum_word 64 shift acc v low)
          ∙ rw (next_sum_rest 64 shift acc v low, next_index i (groups rounds (v / 128))))
  | inr last ↦
      rw (groups_last rounds v last) (scan_last v i shift acc rest m low word (ground arith))
]

-- From index `i` on the data are `rest`.
abbrev pub At : Str → ℕ → Str → Type 0
At bytes i rest = (drop i bytes ≡ rest) × (i + length rest ≡ length bytes)

pub At-append : (bytes x rest : Str) (i : ℕ) → At bytes i (x ++ rest) → At bytes (i + length x) rest
At-append bytes x rest i (e, h) =
    (drop-drop i (length x) bytes ∙ rw (e, drop-append), omega (arith, length-append x rest))

pub negative-false : (i : ℕ) → i < 2 ^ 63 → negative i ≡ false
negative-false i h = lt→leb_false (2 ^ 63) i h

ltb-false : (p l : ℕ) → p ≤ l → ltb l p ≡ false
ltb-false p l h = ground arith

pub past_end-false : (p l : ℕ) → p ≤ l → past_end p l ≡ false
past_end-false p l h = ground arith

-- Within the data a sum of an index and a length does not wrap.
pub add64_small : (i n l : ℕ) → i + n ≤ l → l < 2 ^ 63 → add64 i n ≡ i + n
add64_small i n l h k = mod-eq_of_lt (omega arith)

module _ (bytes : Str) (fits : length bytes < 2 ^ 63) (m : Message) where
  pub read_varint_lem :
      (v i : ℕ) (rest : Str)
      → v < 2 ^ 64
      → At bytes i (varint v ++ rest)
      → read_varint bytes i m ≡ ok (v, i + length (varint v)) m
  unfolding read_varint
  read_varint_lem v i rest word (e, h) =
      let value : (0 + v * 2 ^ 0) % 2 ^ 64 ≡ v = omega arith in
      rw (negative-false i (omega arith), e)
        (scan-groups v v i 0 0 rest m (omega arith) (omega arith) (omega arith) ∙ rw value)

  slice_lem :
      (s rest : Str) (i : ℕ) → At bytes i (s ++ rest) → slice bytes i (i + length s) m ≡ ok s m
  unfolding slice
  slice_lem s rest i (e, h) =
      let room : i + length s ≤ length bytes = omega (arith, length-append s rest) in
      let count : i + length s - i ≡ length s = omega arith in
      rw (
        negative-false (i + length s) (omega arith),
        ltb-false i (i + length s) (omega arith),
        ltb-false (i + length s) (length bytes) room,
        count,
        e,
        take-append,
      )

  pub read_text_lem :
      (s rest : Str) (i : ℕ)
      → At bytes i ((varint (length s) ++ s) ++ rest)
      → read_text bytes i m ≡ ok (s, i + length (varint (length s) ++ s)) m
  unfolding read_text
  read_text_lem s rest i at =
      let prefix : Str = varint (length s) in
      let at_number : At bytes i (prefix ++ (s ++ rest)) = rw append_assoc at at in
      let at_text = At-append bytes prefix (s ++ rest) i at_number in
      let room : i + length prefix + length s ≤ length bytes =
        omega (arith, length-append s rest, at_text.1) in
      let post = add64_small (i + length prefix) (length s) (length bytes) room fits in
      let inside = past_end-false (i + length prefix + length s) (length bytes) room in
      let total : i + length prefix + length s ≡ i + length (prefix ++ s) =
        omega (arith, length-append prefix s) in
      rw (read_varint_lem (length s) i (s ++ rest) (omega arith) at_number)
        (rw (post, inside) (rw (slice_lem s rest (i + length prefix) at_text, total)))
