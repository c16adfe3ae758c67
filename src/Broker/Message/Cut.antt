-- ===== src/Broker/Message/Cut.antt =====
-- The readers of `Unmarshal` of broker/message.pb.go on a field that is cut off.
use mathlib.Core.Path.{subst}
use kuja.Prelude.{
  ℕ, zero, suc, ◌+◌, ◌/◌, ◌%◌, ◌^◌, ◌<◌, ◌≡◌, ◌⊎◌, inl, inr, refl, sym, ap, ◌∙◌, arith, Str, [],
  ◌∷◌, ◌++◌, length, length-append, All, Bool-cases, leb, ltb, true, false,
}
use kuja.Broker.Message.{Message, ok, err, unexpected_eof, add64, past_end}
use kuja.Broker.Message.Size.{extend}
use kuja.Broker.Message.Unmarshal.{
  scan, scan_retry, read_varint, read_text, decode_id, decode_header, decode_retry, decode_body,
  decode_field,
}
use kuja.Broker.Message.Format.{
  groups, varint, text, Field, id, entry, retry, body, payload, encode,
}
use kuja.Broker.Message.Writes.{groups_more, groups_last}
use kuja.Broker.Message.Scan.{At, read_varint_lem, negative-false}
use kuja.Broker.Message.Decoding.{read_tag}

-- Data that are cut off within `xs ++ ys` are cut off within `xs` or within `ys`.
split_cut :
    (xs ys cut tail : Str) (b : ℕ)
    → xs ++ ys ≡ cut ++ (b ∷ tail)
    → ((rest : Str) × (xs ≡ cut ++ (b ∷ rest)))
      ⊎ ((part : Str) × (cut ≡ xs ++ part) × (ys ≡ part ++ (b ∷ tail)))
split_cut [] ys cut tail b e = inr (cut, refl, e)
split_cut (x ∷ xs) ys [] tail b e = inl (xs, let h : x ≡ b = cc in ap (λ c. c ∷ xs) h)
split_cut (x ∷ xs) ys (c ∷ cut) tail b e =
    let same : x ≡ c = cc in
    let behind : xs ++ ys ≡ cut ++ (b ∷ tail) = cc in
    elim (split_cut xs ys cut tail b behind) [
      | inl (rest, h) ↦ inl (rest, rw (same, h) refl)
      | inr (part, h, k) ↦ inr (part, rw (same, h) refl, k)
    ]

abbrev Continues : ℕ → Type 0
Continues b = ltb b 0x80 ≡ false

groups_zero : (v : ℕ) → v ∷ [] ≡ groups 0 v
unfolding groups
groups_zero v = refl

-- The bytes of a varint before its last one have the top bit set.
groups-Continues :
    (rounds v b : ℕ) (cut rest : Str) → groups rounds v ≡ cut ++ (b ∷ rest) → All Continues cut
groups-Continues rounds v b [] rest e = tt
groups-Continues zero v b (c ∷ cut) rest e =
    let whole : v ∷ [] ≡ c ∷ (cut ++ (b ∷ rest)) = groups_zero v ∙ e in
    absurd (omega (arith, ap {B = ℕ} length whole, length-append cut (b ∷ rest)))
groups-Continues (suc rounds) v b (c ∷ cut) rest e = elim (Bool-cases (leb 128 v)) [
  | inl more ↦
      let whole : (v % 128 + 128) ∷ groups rounds (v / 128) ≡ c ∷ (cut ++ (b ∷ rest)) =
        sym (groups_more rounds v more) ∙ e in
      let head : v % 128 + 128 ≡ c = cc in
      let behind : groups rounds (v / 128) ≡ cut ++ (b ∷ rest) = cc in
      (ground (arith, head), groups-Continues rounds (v / 128) b cut rest behind)
  | inr last ↦
      let whole : v ∷ [] ≡ c ∷ (cut ++ (b ∷ rest)) = sym (groups_last rounds v last) ∙ e in
      absurd (omega (arith, ap {B = ℕ} length whole, length-append cut (b ∷ rest)))
]

scan_cut :
    (cut : Str) (i shift acc : ℕ) (m : Message)
    → All Continues cut
    → scan cut i shift acc m ≡ err unexpected_eof m
unfolding scan
scan_cut [] i shift acc m all = refl
scan_cut (b ∷ cut) i shift acc m (more, all) = rw more (scan_cut cut _ _ _ m all)

-- The second message differs from the first in the retry count at most.
abbrev pub KeepsTexts : Message → Message → Type 0
KeepsTexts m m' = (m'.id ≡ m.id) × (m'.header ≡ m.header) × (m'.body ≡ m.body)

scan_retry_cut :
    (cut : Str) (i shift : ℕ) (m : Message)
    → All Continues cut
    → (m' : Message) × (scan_retry cut i shift m ≡ err unexpected_eof m') × KeepsTexts m m'
unfolding scan_retry
scan_retry_cut [] i shift m all = (m, refl, (refl, refl, refl))
scan_retry_cut (b ∷ cut) i shift m (more, all) = rw more (scan_retry_cut cut _ _ _ all)

past_end-true : (p l : ℕ) → l < p → p < 2 ^ 63 → past_end (p % 2 ^ 64) l ≡ true
past_end-true p l h k = ground arith

module _ (bytes : Str) (fits : length bytes < 2 ^ 63) (m : Message) where
  read_varint_cut :
      (v i b : ℕ) (cut rest : Str)
      → varint v ≡ cut ++ (b ∷ rest)
      → At bytes i cut
      → read_varint bytes i m ≡ err unexpected_eof m
  unfolding read_varint
  read_varint_cut v i b cut rest e at =
      rw (negative-false i (omega (arith, at.1)), at.0)
        (scan_cut cut i 0 0 m (groups-Continues v v b cut rest e))

  -- The length of a text that is cut off is cut off as well, or it reaches behind the data.
  length_cut :
      (s : Str) (i b : ℕ) (cut tail : Str)
      → varint (length s) ++ s ≡ cut ++ (b ∷ tail)
      → At bytes i cut
      → i + length (varint (length s) ++ s) < 2 ^ 63
      → (read_varint bytes i m ≡ err unexpected_eof m)
        ⊎ ((start : ℕ) × (read_varint bytes i m ≡ ok (length s, start) m)
            × (past_end (add64 start (length s)) (length bytes) ≡ true))
  length_cut s i b cut tail e at room = elim (split_cut (varint (length s)) s cut tail b e) [
    | inl (rest, within) ↦ inl (read_varint_cut (length s) i b cut rest within at)
    | inr (part, is, text_is) ↦
        let prefix : Str = varint (length s) in
        let at' : At bytes i (prefix ++ part) = subst (At bytes i) is at in
        let total = length-append prefix s in
        let known = length-append prefix part in
        let longer = ap {B = ℕ} length text_is ∙ length-append part (b ∷ tail) in
        inr (
          i + length prefix,
          read_varint_lem bytes fits m (length s) i part (omega (arith, total)) at',
          past_end-true (i + length prefix + length s) (length bytes) (omega (arith, at'.1))
              (omega (arith, total)),
        )
  ]

  read_text_cut :
      (s : Str) (i b : ℕ) (cut tail : Str)
      → varint (length s) ++ s ≡ cut ++ (b ∷ tail)
      → At bytes i cut
      → i + length (varint (length s) ++ s) < 2 ^ 63
      → read_text bytes i m ≡ err unexpected_eof m
  unfolding read_text
  read_text_cut s i b cut tail e at room = elim (length_cut s i b cut tail e at room) [
    | inl stops ↦ rw stops
    | inr (start, number, far) ↦ rw (number, far)
  ]

  -- A field that is cut off behind its tag.
  abbrev pub EndsEarly : ℕ → Type 0
  EndsEarly i = (m' : Message) × (decode_field bytes i m ≡ err unexpected_eof m') × KeepsTexts m m'

  module _ (i b : ℕ) (cut tail : Str) where
    id_cut :
        (s : Str)
        → varint (length s) ++ s ≡ cut ++ (b ∷ tail)
        → At bytes i (0xa ∷ cut)
        → i + length (text 0xa s) < 2 ^ 63
        → decode_field bytes i m ≡ err unexpected_eof m
    unfolding decode_field decode_id
    id_cut s e at room =
        let (tag, behind) = read_tag bytes fits 0xa i cut m (omega arith) at in
        rw (tag, read_text_cut s (i + 1) b cut tail e behind (omega arith))

    body_cut :
        (s : Str)
        → varint (length s) ++ s ≡ cut ++ (b ∷ tail)
        → At bytes i (0x22 ∷ cut)
        → i + length (text 0x22 s) < 2 ^ 63
        → decode_field bytes i m ≡ err unexpected_eof m
    unfolding decode_field decode_body
    body_cut s e at room =
        let (tag, behind) = read_tag bytes fits 0x22 i cut m (omega arith) at in
        rw (tag, read_text_cut s (i + 1) b cut tail e behind (omega arith))

    header_cut :
        (p : Str)
        → varint (length p) ++ p ≡ cut ++ (b ∷ tail)
        → At bytes i (0x12 ∷ cut)
        → i + length (text 0x12 p) < 2 ^ 63
        → decode_field bytes i m ≡ err unexpected_eof m
    unfolding decode_field decode_header
    header_cut p e at room =
        let (tag, behind) = read_tag bytes fits 0x12 i cut m (omega arith) at in
        elim (length_cut p (i + 1) b cut tail e behind (omega arith)) [
          | inl stops ↦ rw (tag, stops)
          | inr (start, number, far) ↦ rw (tag, number) (rw far refl)
        ]

    retry_cut :
        (r : ℕ) → varint (extend r) ≡ cut ++ (b ∷ tail) → At bytes i (0x18 ∷ cut) → EndsEarly i
    unfolding decode_field decode_retry
    retry_cut r e at =
        let (tag, behind) = read_tag bytes fits 0x18 i cut m (omega arith) at in
        let here = negative-false (i + 1) (omega (arith, behind.1)) in
        rw (tag, here)
          (rw (behind.0)
            (scan_retry_cut cut (i + 1) 0 m (groups-Continues (extend r) (extend r) b cut tail e)))

    pub field_cut :
        (f : Field) (c : ℕ)
        → encode f ≡ c ∷ (cut ++ (b ∷ tail))
        → At bytes i (c ∷ cut)
        → i + length (encode f) < 2 ^ 63
        → EndsEarly i
    field_cut (id s) c e at room =
        let tag : c ≡ 0xa = cc in
        let behind : varint (length s) ++ s ≡ cut ++ (b ∷ tail) = cc in
        (m, id_cut s behind (subst (λ t. At bytes i (t ∷ cut)) tag at) room, (refl, refl, refl))
    field_cut (entry k v) c e at room =
        let tag : c ≡ 0x12 = cc in
        let behind : varint (length (payload k v)) ++ payload k v ≡ cut ++ (b ∷ tail) = cc in
        (
          m,
          header_cut (payload k v) behind (subst (λ t. At bytes i (t ∷ cut)) tag at) room,
          (refl, refl, refl),
        )
    field_cut (retry r) c e at room =
        let tag : c ≡ 0x18 = cc in
        let behind : varint (extend r) ≡ cut ++ (b ∷ tail) = cc in
        retry_cut r behind (subst (λ t. At bytes i (t ∷ cut)) tag at)
    field_cut (body s) c e at room =
        let tag : c ≡ 0x22 = cc in
        let behind : varint (length s) ++ s ≡ cut ++ (b ∷ tail) = cc in
        (m, body_cut s behind (subst (λ t. At bytes i (t ∷ cut)) tag at) room, (refl, refl, refl))
