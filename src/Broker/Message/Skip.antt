-- ===== src/Broker/Message/Skip.antt =====
-- `skipMessage` of broker/message.pb.go on a field of a number that the message does not have.
use mathlib.Core.List.{append_assoc}
use kuja.Prelude.{
  ℕ, zero, suc, ◌+◌, ◌*◌, ◌/◌, ◌%◌, ◌^◌, ◌≤◌, ◌<◌, ◌≡◌, ap, ◌∙◌, arith, Str, [], ◌∷◌, ◌++◌, length,
  length-append, drop, Bool-cases, inl, inr, leb, ltb, ◌==◌, true, false, if◌then◌else◌,
}
use kuja.Broker.Message.{Message, ok, add64, M, ◌>>=◌, pure, throw, illegal_wire_type, then_run}
use kuja.Broker.Message.Unmarshal.{read_varint, skip_varint, skip_message, skip_group}
use kuja.Broker.Message.Format.{groups, varint}
use kuja.Broker.Message.Writes.{groups_more, groups_last}
use kuja.Broker.Message.Scan.{At, At-append, read_varint_lem, add64_small, next_index}
use kuja.Broker.Message.Parts.{
  Content, number, eight, sized, four, encode_content, IsContent, unknown, tag_of, encode_part,
}

pub groups_pos : (rounds v : ℕ) → 0 < length (groups rounds v)
unfolding groups
groups_pos zero v = omega arith
groups_pos (suc rounds) v = ground arith

skip_varint-groups :
    (rounds v i : ℕ) (rest : Str) (m : Message)
    → v ≤ rounds
    → skip_varint (groups rounds v ++ rest) i m ≡ ok (i + length (groups rounds v)) m
unfolding skip_varint
skip_varint-groups zero v i rest m h =
    let small : ltb v 0x80 ≡ true = ground arith in unfold groups in rw small
skip_varint-groups (suc rounds) v i rest m h = elim (Bool-cases (leb 128 v)) [
  | inl more ↦
      let top : ltb (v % 128 + 128) 0x80 ≡ false = ground arith in
      rw (groups_more rounds v more) (
        rw top (
          skip_varint-groups rounds (v / 128) (i + 1) rest m (ground arith)
          ∙ rw (next_index i (groups rounds (v / 128)))))
  | inr last ↦
      let small : ltb v 0x80 ≡ true = ground arith in rw (groups_last rounds v last) (rw small)
]

-- `skipMessage` behind a tag, by its wire type.
abbrev skip_kind : ℕ → Str → ℕ → ℕ → M ℕ
skip_kind fuel bytes i kind = elim (kind == 3) [
  | true ↦ skip_group fuel bytes i
  | false ↦
      if kind == 0
      then skip_varint (drop i bytes) i
      else if kind == 1
      then pure (add64 i 8)
      else if kind == 2
      then (read_varint bytes i >>= λ (n, j). pure (add64 j n))
      else if kind == 4
      then pure i
      else if kind == 5
      then pure (add64 i 4)
      else throw (illegal_wire_type kind)
]

abbrev skip_tagged : ℕ → Str → ℕ × ℕ → M ℕ
skip_tagged fuel bytes (wire, i) = skip_kind fuel bytes i (wire % 8)

skip_message-tagged :
    (fuel : ℕ) (bytes : Str) (t : ℕ × ℕ) (m : Message)
    → 0 < length bytes
    → read_varint bytes 0 m ≡ ok t m
    → skip_message (suc fuel) bytes m ≡ skip_tagged fuel bytes t m
unfolding skip_message
skip_message-tagged fuel [] t m some_bytes tag = absurd (omega arith)
skip_message-tagged fuel (b ∷ bytes) t m some_bytes tag =
    ap (then_run (skip_tagged fuel (b ∷ bytes))) tag

module _ (fuel w i : ℕ) (bytes : Str) (m : Message) where
  skip_number : w % 8 ≡ 0 → skip_tagged fuel bytes (w, i) m ≡ skip_varint (drop i bytes) i m
  skip_number kind = ap (λ (k : ℕ). skip_kind fuel bytes i k m) kind

  skip_eight : w % 8 ≡ 1 → skip_tagged fuel bytes (w, i) m ≡ ok (add64 i 8) m
  skip_eight kind = ap (λ (k : ℕ). skip_kind fuel bytes i k m) kind

  skip_sized :
      (n j : ℕ)
      → w % 8 ≡ 2
      → read_varint bytes i m ≡ ok (n, j) m
      → skip_tagged fuel bytes (w, i) m ≡ ok (add64 j n) m
  skip_sized n j kind size =
      ap (λ (k : ℕ). skip_kind fuel bytes i k m) kind
      ∙ ap (then_run (λ t. pure (add64 t.1 t.0))) size

  skip_four : w % 8 ≡ 5 → skip_tagged fuel bytes (w, i) m ≡ ok (add64 i 4) m
  skip_four kind = ap (λ (k : ℕ). skip_kind fuel bytes i k m) kind

pub tag_of_word : (n : ℕ) (u : Content) → n < 2 ^ 29 → tag_of n u < 2 ^ 64
tag_of_word n (number v) h = omega arith
tag_of_word n (eight s) h = omega arith
tag_of_word n (sized s) h = omega arith
tag_of_word n (four s) h = omega arith

module _ (fuel n : ℕ) (m : Message) (small : n < 2 ^ 29) where
  -- The index is behind the tag of a skipped field.
  skip_behind :
      (u : Content) (bytes tail : Str)
      → IsContent u
      → length bytes < 2 ^ 63
      → At bytes (0 + length (varint (tag_of n u))) (encode_content u ++ tail)
      → skip_tagged fuel bytes (tag_of n u, 0 + length (varint (tag_of n u))) m
        ≡ ok (length (encode_part (unknown n u))) m
  skip_behind (number v) bytes tail is fits at =
      let w = n * 8 + 0 in
      let i = 0 + length (varint w) in
      let kind : w % 8 ≡ 0 = omega arith in
      let total : i + length (varint v) ≡ length (varint w ++ varint v) =
        omega (arith, length-append (varint w) (varint v)) in
      skip_number fuel w i bytes m kind
      ∙ ap (λ r. skip_varint r i m) at.0
      ∙ skip_varint-groups v v i tail m (omega arith)
      ∙ ap (λ (j : ℕ). ok j m) total
  skip_behind (eight s) bytes tail is fits at =
      let w = n * 8 + 1 in
      let i = 0 + length (varint w) in
      let kind : w % 8 ≡ 1 = omega arith in
      let room : i + 8 ≤ length bytes = omega (arith, at.1, length-append s tail) in
      let total : i + 8 ≡ length (varint w ++ s) = omega (arith, length-append (varint w) s) in
      skip_eight fuel w i bytes m kind
      ∙ ap (λ (j : ℕ). ok j m) (add64_small i 8 (length bytes) room fits ∙ total)
  skip_behind (sized s) bytes tail is fits at =
      let w = n * 8 + 2 in
      let i = 0 + length (varint w) in
      let size : Str = varint (length s) in
      let kind : w % 8 ≡ 2 = omega arith in
      let at' : At bytes i (size ++ (s ++ tail)) = rw append_assoc at at in
      let known = length-append size (s ++ tail) in
      let known' = length-append s tail in
      let room : i + length size + length s ≤ length bytes = omega (arith, at'.1) in
      let number = read_varint_lem bytes fits m (length s) i (s ++ tail) (omega arith) at' in
      let total : i + length size + length s ≡ length (varint w ++ (size ++ s)) =
        omega (arith, length-append (varint w) (size ++ s), length-append size s) in
      skip_sized fuel w i bytes m (length s) (i + length size) kind number
      ∙ ap (λ (j : ℕ). ok j m)
          (add64_small (i + length size) (length s) (length bytes) room fits ∙ total)
  skip_behind (four s) bytes tail is fits at =
      let w = n * 8 + 5 in
      let i = 0 + length (varint w) in
      let kind : w % 8 ≡ 5 = omega arith in
      let room : i + 4 ≤ length bytes = omega (arith, at.1, length-append s tail) in
      let total : i + 4 ≡ length (varint w ++ s) = omega (arith, length-append (varint w) s) in
      skip_four fuel w i bytes m kind
      ∙ ap (λ (j : ℕ). ok j m) (add64_small i 4 (length bytes) room fits ∙ total)

  -- The reader of a skipped field is at its tag.
  pub skip_content :
      (u : Content) (bytes tail : Str)
      → IsContent u
      → length bytes < 2 ^ 63
      → At bytes 0 (varint (tag_of n u) ++ (encode_content u ++ tail))
      → skip_message (suc fuel) bytes m ≡ ok (length (encode_part (unknown n u))) m
  skip_content u bytes tail is fits at =
      let w = tag_of n u in
      let front = length-append (varint w) (encode_content u ++ tail) in
      let tag =
        read_varint_lem bytes fits m w 0 (encode_content u ++ tail) (tag_of_word n u small) at in
      skip_message-tagged fuel bytes (w, 0 + length (varint w)) m
        (omega (arith, at.1, front, groups_pos w w)) tag
      ∙ skip_behind u bytes tail is fits
          (At-append bytes (varint w) (encode_content u ++ tail) 0 at)
