-- ===== src/Broker/Message/Encoding.antt =====
-- `Size` and `Marshal` against the wire format.
use kuja.Prelude.{ℕ, zero, suc, ◌+◌, ◌/◌, ◌≡◌, refl, sym, ap, ◌∙◌, arith, true, false}
use kuja.Prelude.{ltb, ◌==◌, if◌then◌else◌, Bool-cases, inl, inr}
use kuja.Prelude.{Str, Option, none, some, List, [], ◌∷◌, ◌++◌, length, Bool, take_all}
use kuja.Prelude.{length-append, All}
use kuja.Prelude.Dict.{Dict, Misses, Distinct, lookup-cons_self, lookup-cons_ne}
use kuja.Broker.Message.{Message, entries}
use kuja.Broker.Message.Size.{
  sov_message, sov_loop, extend, map_entry_size, header_size, text_size, body_size, size,
}
use kuja.Broker.Message.Marshal.{
  Writer, ◌>>◌, skip, put_byte, put_varint, put_text, put_entry, put_header, put_body, put_id,
  put_retry, value_of, keys, marshal_to, marshal,
}
use kuja.Broker.Message.Format.{
  Field, id, entry, retry, body, groups, varint, text, payload, encode, encode_all, id_fields,
  entry_fields, retry_fields, body_fields, fields,
}
use kuja.Broker.Message.Writes.{
  Writes, skip-Writes, seq-Writes, put_byte-Writes, put_varint-Writes, put_text-Writes,
}
use mathlib.Core.Logic.{∥∥₁_elim}
use mathlib.Core.Path.{subst}
use mathlib.Core.List.{append-nil, append_assoc, Perm, Permᴰ}
use native.Mathlib.Nat.{ℕ_set}

sov_loop-groups : (rounds v n : ℕ) → sov_loop rounds v n ≡ n + length (groups rounds v)
unfolding sov_loop groups
sov_loop-groups zero v n = omega arith
sov_loop-groups (suc rounds) v n = ground (arith, sov_loop-groups rounds (v / 128) (n + 1))

pub length-varint : (v : ℕ) → length (varint v) ≡ sov_message v
unfolding sov_message
length-varint v = omega (arith, sov_loop-groups v v 0)

pub length-text : (tag : ℕ) (s : Str) → length (text tag s) ≡ 1 + length s + sov_message (length s)
length-text tag s = omega (arith, length-append (varint (length s)) s, length-varint (length s))

-- The bytes of one entry of the header, as `Size` counts them.
abbrev entry_size : Str → Str → ℕ
entry_size k v = map_entry_size k v + 1 + sov_message (map_entry_size k v)

length-payload : (k v : Str) → length (payload k v) ≡ map_entry_size k v
unfolding map_entry_size
length-payload k v =
    omega (arith, length-append (text 0xa k) (text 0x12 v), length-text 0xa k, length-text 0x12 v)

length-entry : (k v : Str) → length (encode (entry k v)) ≡ entry_size k v
length-entry k v = length-text 0x12 (payload k v) ∙ rw (length-payload k v) (omega arith)

-- A sum over keys does not depend on their order.
sum_over : (Str → ℕ) → List Str → ℕ
sum_over f [] = 0
sum_over f (k ∷ ks) = f k + sum_over f ks

sum_over-permᴰ : (f : Str → ℕ) {ks ls : List Str} → Permᴰ ks ls → sum_over f ks ≡ sum_over f ls
unfolding sum_over
sum_over-permᴰ f Permᴰ.nil = refl
sum_over-permᴰ f (Permᴰ.cons e p) = omega (arith, ap f e, sum_over-permᴰ f p)
sum_over-permᴰ f (Permᴰ.swap e e') = omega (arith, ap f e, ap f e')
sum_over-permᴰ f (Permᴰ.trans p q) = sum_over-permᴰ f p ∙ sum_over-permᴰ f q

sum_over-perm : (f : Str → ℕ) (ks ls : List Str) → Perm ks ls → sum_over f ks ≡ sum_over f ls
sum_over-perm f ks ls p = ∥∥₁_elim p (ℕ_set _ _) (λ d. sum_over-permᴰ f d)

-- Two maps that agree on the keys give the same sum.
sum_over_cong :
    (m m' : Dict Str) (ks : List Str)
    → All (λ k. value_of k m ≡ value_of k m') ks
    → sum_over (λ k. entry_size k (value_of k m)) ks
      ≡ sum_over (λ k. entry_size k (value_of k m')) ks
unfolding sum_over
sum_over_cong m m' [] h = refl
sum_over_cong m m' (k ∷ ks) (e, h) = omega (arith, ap (entry_size k) e, sum_over_cong m m' ks h)

values_cons :
    (k v : Str) (m rest : Dict Str)
    → Misses k rest
    → All (λ j. value_of j ((k, v) ∷ m) ≡ value_of j m) (keys rest)
values_cons k v m [] h = tt
values_cons k v m ((j, w) ∷ rest) (ne, h) =
    (rw (lookup-cons_ne j k v m (λ e. ne (sym e)), value_of), values_cons k v m rest h)

header_size-sum :
    (m : Dict Str)
    → Distinct m
    → header_size m ≡ sum_over (λ k. entry_size k (value_of k m)) (keys m)
unfolding header_size sum_over
header_size-sum [] d = refl
header_size-sum ((k, v) ∷ m) (fresh, d) =
    let here : value_of k ((k, v) ∷ m) ≡ v = rw (lookup-cons_self k v m, value_of) in
    omega (
      arith,
      ap (entry_size k) here,
      sum_over_cong ((k, v) ∷ m) m (keys m) (values_cons k v m m fresh),
      header_size-sum m d,
    )

encode_all-append : (fs gs : List Field) → encode_all (fs ++ gs) ≡ encode_all fs ++ encode_all gs
encode_all-append [] gs = refl
encode_all-append (f ∷ fs) gs = rw (encode_all-append fs gs, append_assoc)

length-entries :
    (m : Dict Str) (ks : List Str)
    → length (encode_all (entry_fields m ks)) ≡ sum_over (λ k. entry_size k (value_of k m)) ks
unfolding sum_over
length-entries m [] = refl
length-entries m (k ∷ ks) = omega (
  arith,
  length-append (encode (entry k (value_of k m))) (encode_all (entry_fields m ks)),
  length-entry k (value_of k m),
  length-entries m ks,
)

length-id : (s : Str) → length (encode_all (id_fields s)) ≡ text_size s
length-id s = elim (Bool-cases (ltb 0 (length s))) [
  | inl full ↦ rw full (rw append-nil (length-text 0xa s ∙ omega arith))
  | inr empty ↦ rw empty refl
]

length-retry :
    (r : ℕ)
    → length (encode_all (retry_fields r)) ≡ (if r == 0 then 0 else 1 + sov_message (extend r))
length-retry r = elim (Bool-cases (r == 0)) [
  | inl zero_retry ↦ rw zero_retry refl
  | inr some_retry ↦ rw (some_retry, append-nil) (omega (arith, length-varint (extend r)))
]

length-body : (b : Option Str) → length (encode_all (body_fields b)) ≡ body_size b
length-body none = refl
length-body (some s) = elim (Bool-cases (ltb 0 (length s))) [
  | inl full ↦ rw full (rw append-nil (length-text 0x22 s ∙ omega arith))
  | inr empty ↦ rw empty refl
]

module _ (sort : List Str → List Str) (m : Message) where
  -- The four parts of the encoding, one behind the other.
  parts :
      encode_all (fields sort m)
      ≡ encode_all (id_fields m.id)
        ++ (encode_all (entry_fields (entries m.header) (sort (keys (entries m.header))))
            ++ (encode_all (retry_fields m.retry) ++ encode_all (body_fields m.body)))
  parts = simp encode_all-append

  -- `Size` counts the bytes of the encoding.
  pub size-encoding :
      Perm (sort (keys (entries m.header))) (keys (entries m.header))
      → Distinct (entries m.header)
      → size m ≡ length (encode_all (fields sort m))
  unfolding size
  size-encoding p d =
      rw (parts, length-append, length-append, length-append)
        (omega (
          arith,
          length-id m.id,
          length-entries (entries m.header) (sort (keys (entries m.header))),
          sum_over-perm (λ k. entry_size k (value_of k (entries m.header))) _ _ p,
          header_size-sum (entries m.header) d,
          length-retry m.retry,
          length-body m.body,
        ))

put_entry-Writes : (k v : Str) → Writes (put_entry k v) (encode (entry k v))
unfolding put_entry
put_entry-Writes k v =
    let texts =
      seq-Writes (put_text 0xa k) (put_text 0x12 v) (text 0xa k) (text 0x12 v)
        (put_text-Writes 0xa k) (put_text-Writes 0x12 v) in
    rw (← length-payload k v) (
      seq-Writes (put_byte 0x12)
        (put_varint (length (payload k v)) >> (put_text 0xa k >> put_text 0x12 v)) (0x12 ∷ [])
        (varint (length (payload k v)) ++ payload k v) (put_byte-Writes 0x12)
        (seq-Writes (put_varint (length (payload k v))) (put_text 0xa k >> put_text 0x12 v)
          (varint (length (payload k v))) (payload k v) (put_varint-Writes (length (payload k v)))
          texts))

put_header-Writes :
    (m : Dict Str) (ks : List Str) → Writes (put_header m ks) (encode_all (entry_fields m ks))
unfolding put_header
put_header-Writes m [] = skip-Writes
put_header-Writes m (k ∷ ks) =
    seq-Writes (put_entry k (value_of k m)) (put_header m ks) (encode (entry k (value_of k m)))
      (encode_all (entry_fields m ks)) (put_entry-Writes k (value_of k m)) (put_header-Writes m ks)

-- A part that is written or left out.
part-Writes :
    (c : Bool) (f : Writer) (field : Field)
    → Writes f (encode field)
    → Writes (if c then f else skip) (encode_all (if c then field ∷ [] else []))
part-Writes true f field h = subst (Writes f) (sym (append-nil (encode field))) h
part-Writes false f field h = skip-Writes

put_id-Writes : (s : Str) → Writes (put_id s) (encode_all (id_fields s))
put_id-Writes s = part-Writes (ltb 0 (length s)) (put_text 0xa s) (id s) (put_text-Writes 0xa s)

put_retry-Writes : (r : ℕ) → Writes (put_retry r) (encode_all (retry_fields r))
put_retry-Writes r = elim (Bool-cases (r == 0)) [
  | inl zero_retry ↦ rw zero_retry skip-Writes
  | inr some_retry ↦ rw some_retry (
      part-Writes true (put_byte 0x18 >> put_varint (extend r)) (retry r) (
        seq-Writes (put_byte 0x18) (put_varint (extend r)) (0x18 ∷ []) (varint (extend r))
          (put_byte-Writes 0x18) (put_varint-Writes (extend r))))
]

put_body-Writes : (b : Option Str) → Writes (put_body b) (encode_all (body_fields b))
put_body-Writes none = skip-Writes
put_body-Writes (some s) =
    part-Writes (ltb 0 (length s)) (put_text 0x22 s) (body s) (put_text-Writes 0x22 s)

module _ (sort : List Str → List Str) (m : Message) where
  marshal_to-Writes : Writes (marshal_to sort m) (encode_all (fields sort m))
  unfolding marshal_to
  marshal_to-Writes =
      let head_part : Writer = put_header (entries m.header) (sort (keys (entries m.header))) in
      let tail_part : Writer = put_retry m.retry >> put_body m.body in
      let head = encode_all (entry_fields (entries m.header) (sort (keys (entries m.header)))) in
      let tail = encode_all (retry_fields m.retry) ++ encode_all (body_fields m.body) in
      rw (parts sort m) (
        seq-Writes (put_id m.id) (head_part >> tail_part) (encode_all (id_fields m.id))
          (head ++ tail) (put_id-Writes m.id)
          (seq-Writes head_part tail_part head tail
            (put_header-Writes (entries m.header) (sort (keys (entries m.header))))
            (seq-Writes (put_retry m.retry) (put_body m.body) (encode_all (retry_fields m.retry))
              (encode_all (body_fields m.body)) (put_retry-Writes m.retry)
              (put_body-Writes m.body))))

  -- `Marshal` does not panic: the buffer of `Size` bytes is filled to its end by the encoding.
  pub marshal-encoding :
      Perm (sort (keys (entries m.header))) (keys (entries m.header))
      → Distinct (entries m.header)
      → marshal sort m ≡ some (encode_all (fields sort m))
  unfolding marshal
  marshal-encoding p d =
      let out : Str = encode_all (fields sort m) in
      let filled = marshal_to-Writes [] 0 (size m) (size-encoding sort m p d ∙ omega arith) in
      rw filled (rw (append-nil, take_all out))
