-- ===== src/Broker/Message/Unknown.antt =====
-- `Unmarshal` of broker/message.pb.go on data with fields of other numbers, which it skips.
use mathlib.Core.Path.{subst}
use mathlib.Core.List.{append_assoc, append-nil, map}
use kuja.Prelude.{
  ℕ, suc, ◌+◌, ◌-◌, ◌/◌, ◌%◌, ◌^◌, ◌≤◌, ◌<◌, ◌≡◌, refl, sym, ap, ◌∙◌, arith, Str, List, [], ◌∷◌,
  ◌++◌, length, length-append, length-drop, drop, take, take_all, All, ltb, ◌==◌, false,
  if◌then◌else◌,
}
use kuja.Broker.Message.{Message, ok, M, then_run}
use kuja.Broker.Message.Size.{sov_message}
use kuja.Broker.Message.Unmarshal.{
  read_varint, slice, skip_unknown, decode_id, decode_header, decode_retry, decode_body,
  decode_field, unmarshal_loop, unmarshal,
}
use kuja.Broker.Message.Format.{Field, varint, encode, encode_all, apply, apply_all}
use kuja.Broker.Message.Encoding.{length-varint}
use kuja.Broker.Message.Scan.{
  At, At-append, read_varint_lem, negative-false, past_end-false, add64_small,
}
use kuja.Broker.Message.Decoding.{
  IsSmall, encode_pos, decode_field-apply, before_end, loop_step, loop_end, at_end,
}
use kuja.Broker.Message.Parts.{
  Content, number, eight, sized, four, encode_content, IsContent, Part, known, unknown, tag_of,
  encode_part, encode_parts, IsPart, apply_part, apply_parts,
}
use kuja.Broker.Message.Skip.{skip_content, groups_pos, tag_of_word}

slice_rest :
    (bytes : Str) (i : ℕ) (m : Message)
    → i ≤ length bytes
    → length bytes < 2 ^ 63
    → slice bytes i (length bytes) m ≡ ok (drop i bytes) m
unfolding slice
slice_rest bytes i m h fits =
    let size : length bytes - i ≡ length (drop i bytes) = sym (length-drop i bytes) in
    let order : ltb (length bytes) i ≡ false = ground arith in
    let inside : ltb (length bytes) (length bytes) ≡ false = ground arith in
    rw (negative-false (length bytes) fits, order, inside)
      (ap (λ (n : ℕ). ok (take n (drop i bytes)) m) size
        ∙ ap (λ (s : Str). ok s m) (take_all (drop i bytes)))

encode_part_pos : (p : Part) → 0 < length (encode_part p)
encode_part_pos (known f) = encode_pos f
encode_part_pos (unknown n u) = omega (
  arith,
  length-append (varint (tag_of n u)) (encode_content u),
  groups_pos (tag_of n u) (tag_of n u),
)

-- The number of a field by its tag.
tag_number : (n : ℕ) (u : Content) → n < 2 ^ 29 → tag_of n u / 8 % 2 ^ 32 ≡ n
tag_number n (number v) h = omega arith
tag_number n (eight s) h = omega arith
tag_number n (sized s) h = omega arith
tag_number n (four s) h = omega arith

back_to_tag :
    (i w : ℕ)
    → i + length (varint w) < 2 ^ 63
    → (i + length (varint w) + 2 ^ 64 - sov_message w) % 2 ^ 64 ≡ i
back_to_tag i w h = let size = length-varint w in omega arith

-- What `Unmarshal` does behind a tag, by the number of the field.
abbrev by_number : Str → ℕ × ℕ → ℕ → M ℕ
by_number bytes (wire, j) n =
    if n == 1
    then decode_id bytes (wire % 8) j
    else if n == 2
    then decode_header bytes (wire % 8) j
    else if n == 3
    then decode_retry bytes (wire % 8) j
    else if n == 4
    then decode_body bytes (wire % 8) j
    else skip_unknown bytes wire j

decode_field-by_number :
    (bytes : Str) (i : ℕ) (m : Message)
    → decode_field bytes i m
      ≡ then_run (λ t. by_number bytes t (t.0 / 8 % 2 ^ 32)) (read_varint bytes i m)
unfolding decode_field
decode_field-by_number bytes i m = refl

by_number-other :
    (bytes : Str) (t : ℕ × ℕ) (n : ℕ) (m : Message)
    → 4 < n
    → by_number bytes t n m ≡ skip_unknown bytes t.0 t.1 m
by_number-other bytes t n m h =
    let one : (n == 1) ≡ false = ground arith in
    let two : (n == 2) ≡ false = ground arith in
    let three : (n == 3) ≡ false = ground arith in
    let four_is : (n == 4) ≡ false = ground arith in rw (one, two, three, four_is) refl

module _ (bytes : Str) (fits : length bytes < 2 ^ 63) where
  module _ (n i : ℕ) (u : Content) (tail : Str) (m : Message) (small : n < 2 ^ 29)
      (is : IsContent u) (at : At bytes i (encode_part (unknown n u) ++ tail)) where
    skip_unknown_lem :
        skip_unknown bytes (tag_of n u) (i + length (varint (tag_of n u))) m
        ≡ ok (i + length (encode_part (unknown n u))) m
    unfolding skip_unknown
    skip_unknown_lem =
        let w = tag_of n u in
        let rest : Str = drop i bytes in
        let at' : At bytes i (varint w ++ (encode_content u ++ tail)) = rw append_assoc at at in
        let whole = length-append (encode_part (unknown n u)) tail in
        let parts = length-append (varint w) (encode_content u) in
        let size = ap {B = ℕ} length at'.0 in
        let short : length rest < 2 ^ 63 = omega (arith, length-drop i bytes) in
        let back = back_to_tag i w (omega (arith, at.1, whole, parts)) in
        let fuel : length bytes + 1 ≡ suc (length bytes) = omega arith in
        let cut = slice_rest bytes i m (omega (arith, at.1)) fits in
        let skipped =
          skip_content (length bytes) n m small u rest tail is short (at'.0, omega (arith, size)) in
        let room : i + length (encode_part (unknown n u)) ≤ length bytes =
          omega (arith, at.1, whole) in
        let end = add64_small i (length (encode_part (unknown n u))) (length bytes) room fits in
        let inside = past_end-false (i + length (encode_part (unknown n u))) (length bytes) room in
        rw back (rw cut (rw fuel (rw skipped (rw end (rw inside refl)))))

    decode_field-unknown :
        4 < n → decode_field bytes i m ≡ ok (i + length (encode_part (unknown n u))) m
    decode_field-unknown other =
        let w = tag_of n u in
        let at' : At bytes i (varint w ++ (encode_content u ++ tail)) = rw append_assoc at at in
        let tag =
          read_varint_lem bytes fits m w i (encode_content u ++ tail) (tag_of_word n u small) at' in
        decode_field-by_number bytes i m
        ∙ ap (then_run (λ t. by_number bytes t (t.0 / 8 % 2 ^ 32))) tag
        ∙ ap (λ (k : ℕ). by_number bytes (w, i + length (varint w)) k m) (tag_number n u small)
        ∙ by_number-other bytes (w, i + length (varint w)) n m other
        ∙ skip_unknown_lem

  decode_field-apply_part :
      (p : Part) (rest : Str) (i : ℕ) (m : Message)
      → IsPart p
      → At bytes i (encode_part p ++ rest)
      → decode_field bytes i m ≡ ok (i + length (encode_part p)) (apply_part p m)
  decode_field-apply_part (known f) rest i m is at = decode_field-apply bytes fits f rest i m is at
  decode_field-apply_part (unknown n u) rest i m (other, small, is) at =
      decode_field-unknown n i u rest m small is at other

  -- The rounds over parts that are whole.
  pub unmarshal_loop-front :
      (ps : List Part) (rounds i : ℕ) (rest : Str) (m : Message)
      → All IsPart ps
      → At bytes i (encode_parts ps ++ rest)
      → (unmarshal_loop (length ps + rounds) bytes i m
          ≡ unmarshal_loop rounds bytes (i + length (encode_parts ps)) (apply_parts ps m))
        × At bytes (i + length (encode_parts ps)) rest
  unmarshal_loop-front [] rounds i rest m all at =
      let none_run : 0 + rounds ≡ rounds = omega arith in
      let here : i + 0 ≡ i = omega arith in
      (rw (none_run, here) refl, subst (λ j. At bytes j rest) (sym here) at)
  unmarshal_loop-front (p ∷ ps) rounds i rest m (is, all) at =
      let at' : At bytes i (encode_part p ++ (encode_parts ps ++ rest)) = rw append_assoc at at in
      let behind = At-append bytes (encode_part p) (encode_parts ps ++ rest) i at' in
      let one = decode_field-apply_part p (encode_parts ps ++ rest) i m is at' in
      let below = before_end i (length bytes) (
        omega (
          arith,
          at'.1,
          encode_part_pos p,
          length-append (encode_part p) (encode_parts ps ++ rest),
        )) in
      let (more, last) =
        unmarshal_loop-front ps rounds (i + length (encode_part p)) rest (apply_part p m) all
          behind in
      let total : i + length (encode_part p) + length (encode_parts ps)
          ≡ i + length (encode_part p ++ encode_parts ps) =
        omega (arith, length-append (encode_part p) (encode_parts ps)) in
      let next : suc (length ps) + rounds ≡ suc (length ps + rounds) = omega arith in
      (
        rw next (
            loop_step bytes fits (length ps + rounds) i (i + length (encode_part p)) m
              (apply_part p m) below one
            ∙ more
            ∙ rw total refl),
        subst (λ j. At bytes j rest) total last,
      )

pub parts_short : (ps : List Part) → length ps ≤ length (encode_parts ps)
parts_short [] = omega arith
parts_short (p ∷ ps) =
    omega
      (arith, parts_short ps, encode_part_pos p, length-append (encode_part p) (encode_parts ps))

-- Unmarshal of fields in any order and number, of the message and of other numbers, applies those
-- of the message one after the other, and skips each other one, be it a varint, eight or four bytes
-- or a text.
pub unmarshal-encode_parts :
    (ps : List Part) (m : Message)
    → All IsPart ps
    → length (encode_parts ps) < 2 ^ 63
    → unmarshal (encode_parts ps) m ≡ ok tt (apply_parts ps m)
unmarshal-encode_parts ps m h fits =
    let bytes = encode_parts ps in
    let left : ℕ = length bytes - length ps in
    let rounds : length bytes + 1 ≡ length ps + suc left = omega (arith, parts_short ps) in
    let start : At bytes 0 (encode_parts ps ++ []) = rw append-nil (refl, omega arith) in
    let (run, at) = unmarshal_loop-front bytes fits ps (suc left) 0 [] m h start in
    let last =
      loop_end bytes fits left (0 + length bytes) (apply_parts ps m)
        (at_end (0 + length bytes) (length bytes) (omega arith) fits) in
    unfold unmarshal in rw rounds (run ∙ last)

encode_parts-known : (fs : List Field) → encode_parts (map known fs) ≡ encode_all fs
encode_parts-known [] = refl
encode_parts-known (f ∷ fs) = ap (λ s. encode f ++ s) (encode_parts-known fs)

apply_parts-known : (fs : List Field) (m : Message) → apply_parts (map known fs) m ≡ apply_all fs m
apply_parts-known [] m = refl
apply_parts-known (f ∷ fs) m = apply_parts-known fs (apply f m)

known-IsPart : (fs : List Field) → All IsSmall fs → All IsPart (map known fs)
known-IsPart [] h = tt
known-IsPart (f ∷ fs) (small, h) = (small, known-IsPart fs h)

-- Any fields of the message, in any order and number, are read one after the other.
pub unmarshal-encode_all :
    (fs : List Field) (m : Message)
    → All IsSmall fs
    → length (encode_all fs) < 2 ^ 63
    → unmarshal (encode_all fs) m ≡ ok tt (apply_all fs m)
unmarshal-encode_all fs m h fits =
    let same = encode_parts-known fs in
    let fits' : length (encode_parts (map known fs)) < 2 ^ 63 = rw same fits in
    sym (ap (λ (s : Str). unmarshal s m) same)
    ∙ unmarshal-encode_parts (map known fs) m (known-IsPart fs h) fits'
    ∙ ap (ok tt) (apply_parts-known fs m)
