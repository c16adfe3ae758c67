-- ===== src/Broker/Message/Writes.antt =====
-- What the writers of `MarshalTo` put into a buffer that has room for it.
use kuja.Prelude.{
  ℕ, zero, suc, ◌+◌, ◌-◌, ◌/◌, ◌%◌, ◌≤◌, ◌<◌, ◌≡◌, refl, ap, arith, Bool, true, false,
}
use kuja.Prelude.{leb, if◌then◌else◌, le→leb, Bool-cases, inl, inr}
use kuja.Prelude.{Str, some, [], ◌∷◌, ◌++◌, length, replicate}
use kuja.Prelude.{length-append, take-append, drop-append, length-replicate}
use kuja.Prelude.Bits.{low_seven, set_high}
use kuja.Broker.Message.Marshal.{
  Writer, ◌>>◌, skip, store, overwrite, put_byte, put_copy, put_varint_loop, put_varint, put_text,
}
use kuja.Broker.Message.Format.{groups, varint, text}
use mathlib.Core.List.{append_assoc, append-nil}
use Prim.Native.Nat.{bit_and, bit_or, min}

-- The writer puts `ys` behind what is done, and leaves the rest of the zeros.
abbrev pub Writes : Writer → Str → Type 0
Writes f ys =
    (done : Str) (r n : ℕ)
    → n ≡ length ys + r
    → f (done ++ replicate n 0) (length done)
      ≡ some ((done ++ ys) ++ replicate r 0, length (done ++ ys))

pub skip-Writes : Writes skip []
skip-Writes done r n e = let e' : n ≡ r = omega arith in rw (append-nil, e')

pub seq-Writes :
    (f g : Writer) (xs ys : Str) → Writes f xs → Writes g ys → Writes (f >> g) (xs ++ ys)
seq-Writes f g xs ys hf hg done r n e =
    let e' : n ≡ length xs + (length ys + r) = omega (arith, length-append xs ys) in
    rw (hf done (length ys + r) n e', ← append_assoc done xs ys)
      (hg (done ++ xs) r (length ys + r) refl)

pub if-Writes :
    (c : Bool) (f g : Writer) (xs ys : Str)
    → Writes f xs
    → Writes g ys
    → Writes (if c then f else g) (if c then xs else ys)
if-Writes true f g xs ys hf hg = hf
if-Writes false f g xs ys hf hg = hg

store_lem :
    (done rest : Str) (x b : ℕ)
    → store (done ++ (x ∷ rest)) (length done) b ≡ some (done ++ (b ∷ rest))
unfolding store
store_lem [] rest x b = refl
store_lem (y ∷ done) rest x b = rw (store_lem done rest x b)

length-concat : (done : Str) (b : ℕ) → length done + 1 ≡ length (done ++ (b ∷ []))
length-concat done b = omega (arith, length-append done (b ∷ []))

pub put_byte-Writes : (b : ℕ) → Writes (put_byte b) (b ∷ [])
unfolding put_byte
put_byte-Writes b done r n e =
    let e' : n ≡ suc r = omega arith in
    rw (e', store_lem done (replicate r 0) 0 b, append_assoc, length-concat done b)

overwrite-zeros :
    (s : Str) (r n : ℕ) → n ≡ length s + r → overwrite (replicate n 0) s ≡ s ++ replicate r 0
unfolding overwrite
overwrite-zeros [] r zero e = let e' : r ≡ 0 = omega arith in rw e'
overwrite-zeros [] r (suc n) e = let e' : r ≡ suc n = omega arith in rw e'
overwrite-zeros (b ∷ s) r zero e = absurd (omega arith)
overwrite-zeros (b ∷ s) r (suc n) e = ap (λ t. b ∷ t) (overwrite-zeros s r n (omega arith))

pub put_copy-Writes : (s : Str) → Writes (put_copy s) s
unfolding put_copy
put_copy-Writes s done r n e =
    let room : length (done ++ replicate n 0) ≡ length done + n =
      omega (arith, length-append done (replicate n 0), length-replicate {A = ℕ} n 0) in
    let copied : length done + min (length done + n - length done) (length s) ≡ length (done ++ s) =
      omega (arith, length-append done s) in
    rw (le→leb (length done) (length (done ++ replicate n 0)) (omega arith))
      (rw (take-append, drop-append, overwrite-zeros s r n e, room, append_assoc) (rw copied))

-- `uint8(v&0x7f | 0x80)`
group_byte : (v : ℕ) → bit_or (bit_and v 0x7f) 0x80 % 256 ≡ v % 128 + 128
group_byte v = rw (low_seven v, set_high (v % 128) (omega arith)) (omega arith)

last_byte-Writes : (v : ℕ) → v < 128 → Writes (put_byte (v % 256)) (v ∷ [])
last_byte-Writes v h = let e : v % 256 ≡ v = omega arith in rw e (put_byte-Writes v)

module _ (rounds v : ℕ) where
  put_varint_loop_more :
      leb 128 v ≡ true
      → put_varint_loop (suc rounds) v
        ≡ (put_byte (bit_or (bit_and v 0x7f) 0x80 % 256) >> put_varint_loop rounds (v / 128))
  unfolding put_varint_loop
  put_varint_loop_more h = rw (h, put_varint_loop)

  put_varint_loop_last : leb 128 v ≡ false → put_varint_loop (suc rounds) v ≡ put_byte (v % 256)
  unfolding put_varint_loop
  put_varint_loop_last h = rw (h, put_varint_loop)

  pub groups_more :
      leb 128 v ≡ true → groups (suc rounds) v ≡ (v % 128 + 128) ∷ groups rounds (v / 128)
  unfolding groups
  groups_more h = rw (h, groups)

  pub groups_last : leb 128 v ≡ false → groups (suc rounds) v ≡ v ∷ []
  unfolding groups
  groups_last h = rw (h, groups)

put_varint_loop-Writes :
    (rounds v : ℕ) → v ≤ rounds → Writes (put_varint_loop rounds v) (groups rounds v)
put_varint_loop-Writes zero v h = unfold put_varint_loop groups in last_byte-Writes v (omega arith)
put_varint_loop-Writes (suc rounds) v h = elim (Bool-cases (leb 128 v)) [
  | inl more ↦
      rw (put_varint_loop_more rounds v more, groups_more rounds v more, group_byte v)
        (seq-Writes (put_byte (v % 128 + 128)) (put_varint_loop rounds (v / 128))
          ((v % 128 + 128) ∷ []) (groups rounds (v / 128)) (put_byte-Writes (v % 128 + 128))
          (put_varint_loop-Writes rounds (v / 128) (ground arith)))
  | inr last ↦
      rw (put_varint_loop_last rounds v last, groups_last rounds v last)
        (last_byte-Writes v (ground arith))
]

pub put_varint-Writes : (v : ℕ) → Writes (put_varint v) (varint v)
unfolding put_varint
put_varint-Writes v = put_varint_loop-Writes v v (omega arith)

pub put_text-Writes : (tag : ℕ) (s : Str) → Writes (put_text tag s) (text tag s)
unfolding put_text
put_text-Writes tag s =
    seq-Writes (put_byte tag) (put_varint (length s) >> put_copy s) (tag ∷ [])
      (varint (length s) ++ s) (put_byte-Writes tag)
      (seq-Writes (put_varint (length s)) (put_copy s) (varint (length s)) s
        (put_varint-Writes (length s)) (put_copy-Writes s))
