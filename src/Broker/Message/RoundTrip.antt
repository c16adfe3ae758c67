-- ===== src/Broker/Message/RoundTrip.antt =====
-- What `Marshal` writes, `Unmarshal` reads back.
use kuja.Prelude.{All-append, ℕ, ◌^◌, ◌<◌, ◌≡◌, refl, sym, ap, ◌∙◌, arith, Bool, true, false, ◌||◌}
use kuja.Prelude.{ltb, ◌==◌, if◌then◌else◌, Bool-cases, inl, inr, str_eq, str_eq_iff}
use kuja.Prelude.{Str, Option, none, some, List, [], ◌∷◌, ◌++◌, length, All}
use kuja.Prelude.Bits.{zero-bit_or}
use kuja.Prelude.Dict.{Dict, Distinct, lookup, insert, lookup-insert}
use kuja.Broker.Message.{Message, blank, entries, ok}
use kuja.Broker.Message.Size.{size}
use kuja.Broker.Message.Marshal.{keys, value_of, marshal}
use kuja.Broker.Message.Unmarshal.{unmarshal}
use kuja.Broker.Message.Format.{
  Field, id, body, encode_all, apply, apply_all, id_fields, entry_fields, retry_fields, body_fields,
  fields,
}
use kuja.Broker.Message.Encoding.{size-encoding, marshal-encoding}
use kuja.Broker.Message.Decoding.{IsSmall}
use kuja.Broker.Message.Unknown.{unmarshal-encode_all}
use mathlib.Core.Logic.{∥∥₁_elim}
use mathlib.Core.List.{Perm, Permᴰ}
use mathlib.Core.Bool.{Bool-set}

-- An empty slice is not written, and is read back as nil.
abbrev pub non_empty : Option Str → Option Str
non_empty none = none
non_empty (some []) = none
non_empty (some (b ∷ s)) = some (b ∷ s)

-- The message that is read back: the same as Go sees it, an empty body being nil.
pub record SameMessage (m m' : Message) : Type 0 where
  pub same_id : m'.id ≡ m.id
  pub same_header : (k : Str) → lookup k (entries m'.header) ≡ lookup k (entries m.header)
  pub same_retry : m'.retry ≡ m.retry
  pub same_body : m'.body ≡ non_empty m.body

contains : Str → List Str → Bool
contains j [] = false
contains j (k ∷ ks) = str_eq k j || contains j ks

contains-permᴰ : (j : Str) {ks ls : List Str} → Permᴰ ks ls → contains j ks ≡ contains j ls
unfolding contains
contains-permᴰ j Permᴰ.nil = refl
contains-permᴰ j (Permᴰ.cons e p) = rw (e, contains-permᴰ j p)
contains-permᴰ j (Permᴰ.swap e e') = rw (e, e') (ground arith)
contains-permᴰ j (Permᴰ.trans p q) = contains-permᴰ j p ∙ contains-permᴰ j q

lookup-contains :
    (j : Str) (d : Dict Str)
    → lookup j d ≡ (if contains j (keys d) then some (value_of j d) else none)
unfolding contains lookup
lookup-contains j [] = refl
lookup-contains j ((k, v) ∷ d) = ground (arith, lookup-contains j d)

-- The header after the entries at the keys `ks`.
rebuild : Dict Str → List Str → Option (Dict Str) → Option (Dict Str)
rebuild d [] h = h
rebuild d (k ∷ ks) h = rebuild d ks (some (insert k (value_of k d) (entries h)))

lookup-rebuild :
    (j : Str) (d : Dict Str) (ks : List Str) (h : Option (Dict Str))
    → lookup j (entries (rebuild d ks h))
      ≡ (if contains j ks then some (value_of j d) else lookup j (entries h))
unfolding rebuild contains
lookup-rebuild j d [] h = refl
lookup-rebuild j d (k ∷ ks) h = ground (
  arith,
  str_eq_iff k j,
  lookup-insert k j (value_of k d) (entries h),
  lookup-rebuild j d ks (some (insert k (value_of k d) (entries h))),
)

rebuild-same :
    (j : Str) (d : Dict Str) (ks : List Str)
    → Perm ks (keys d)
    → lookup j (entries (rebuild d ks none)) ≡ lookup j d
unfolding lookup
rebuild-same j d ks p =
    let same : contains j ks ≡ contains j (keys d) =
      ∥∥₁_elim p (Bool-set _ _) (λ q. contains-permᴰ j q) in
    lookup-rebuild j d ks none ∙ rw same (sym (lookup-contains j d))

apply_all-append :
    (fs gs : List Field) (m : Message) → apply_all (fs ++ gs) m ≡ apply_all gs (apply_all fs m)
apply_all-append [] gs m = refl
apply_all-append (f ∷ fs) gs m = apply_all-append fs gs (apply f m)

apply_all-id : (s : Str) → apply_all (id_fields s) blank ≡ record blank { id = s }
apply_all-id [] = refl
apply_all-id (b ∷ s) = ground arith

apply_all-entries :
    (d : Dict Str) (ks : List Str) (m : Message)
    → apply_all (entry_fields d ks) m ≡ record m { header = rebuild d ks m.header }
unfolding rebuild
apply_all-entries d [] m = refl
apply_all-entries d (k ∷ ks) m =
    apply_all-entries d ks (record m { header = some (insert k (value_of k d) (entries m.header)) })

apply_all-retry :
    (r : ℕ) (m : Message) → m.retry ≡ 0 → apply_all (retry_fields r) m ≡ record m { retry = r }
apply_all-retry r m e = ground (arith, zero-bit_or r)

apply_all-body :
    (b : Option Str) (m : Message)
    → m.body ≡ none
    → apply_all (body_fields b) m ≡ record m { body = non_empty b }
apply_all-body none m e = ground arith
apply_all-body (some []) m e = ground arith
apply_all-body (some (x ∷ s)) m e = ground arith

retry_fields-IsSmall : (r : ℕ) → r < 2 ^ 32 → All IsSmall (retry_fields r)
retry_fields-IsSmall r h = elim (Bool-cases (r == 0)) [
  | inl zero_retry ↦ rw zero_retry tt
  | inr some_retry ↦ rw some_retry (h, tt)
]

part-IsSmall : (c : Bool) (f : Field) → IsSmall f → All IsSmall (if c then f ∷ [] else [])
part-IsSmall true f h = (h, tt)
part-IsSmall false f h = tt

id_fields-IsSmall : (s : Str) → All IsSmall (id_fields s)
id_fields-IsSmall s = part-IsSmall (ltb 0 (length s)) (id s) tt

entry_fields-IsSmall : (d : Dict Str) (ks : List Str) → All IsSmall (entry_fields d ks)
entry_fields-IsSmall d [] = tt
entry_fields-IsSmall d (k ∷ ks) = (tt, entry_fields-IsSmall d ks)

body_fields-IsSmall : (b : Option Str) → All IsSmall (body_fields b)
body_fields-IsSmall none = tt
body_fields-IsSmall (some s) = part-IsSmall (ltb 0 (length s)) (body s) tt

module _ (sort : List Str → List Str) (m : Message) where
  order : List Str
  order = sort (keys (entries m.header))

  -- The message that the fields of `m` make.
  read_back : Message
  unfolding order
  read_back = record {
    id = m.id;
    header = rebuild (entries m.header) order none;
    retry = m.retry;
    body = non_empty m.body;
  }

  fields-IsSmall : m.retry < 2 ^ 32 → All IsSmall (fields sort m)
  fields-IsSmall h = All-append IsSmall (id_fields m.id) _ (id_fields-IsSmall m.id) (
      All-append IsSmall (entry_fields (entries m.header) (sort (keys (entries m.header)))) _
        (entry_fields-IsSmall (entries m.header) (sort (keys (entries m.header))))
        (All-append IsSmall (retry_fields m.retry) (body_fields m.body)
          (retry_fields-IsSmall m.retry h) (body_fields-IsSmall m.body)))

  apply_all-fields : apply_all (fields sort m) blank ≡ read_back
  unfolding read_back order
  apply_all-fields =
      let ks = sort (keys (entries m.header)) in
      let with_id : Message = record blank { id = m.id } in
      let with_header : Message = record with_id { header = rebuild (entries m.header) ks none } in
      let with_retry : Message = record with_header { retry = m.retry } in
      let last = body_fields m.body in
      let after_header = retry_fields m.retry ++ last in
      let after_id = entry_fields (entries m.header) ks ++ after_header in
      apply_all-append (id_fields m.id) after_id blank
      ∙ ap (apply_all after_id) (apply_all-id m.id)
      ∙ apply_all-append (entry_fields (entries m.header) ks) after_header with_id
      ∙ ap (apply_all after_header) (apply_all-entries (entries m.header) ks with_id)
      ∙ apply_all-append (retry_fields m.retry) last with_header
      ∙ ap (apply_all last) (apply_all-retry m.retry with_header refl)
      ∙ apply_all-body m.body with_retry refl

  -- `Marshal` returns bytes, and `Unmarshal` of these bytes into a fresh message returns no error
  -- and makes the same message, where the key order is a permutation of the keys, the keys are
  -- distinct, the retry count is an int32 and the size is an int.
  pub unmarshal-marshal :
      Perm (sort (keys (entries m.header))) (keys (entries m.header))
      → Distinct (entries m.header)
      → m.retry < 2 ^ 32
      → size m < 2 ^ 63
      → (bytes : Str) × (m' : Message) × (marshal sort m ≡ some bytes)
        × (unmarshal bytes blank ≡ ok tt m')
        × SameMessage m m'
  unfolding read_back order
  unmarshal-marshal p d h fits =
      let small : length (encode_all (fields sort m)) < 2 ^ 63 =
        omega (arith, size-encoding sort m p d) in
      (
        encode_all (fields sort m),
        read_back,
        marshal-encoding sort m p d,
        unmarshal-encode_all (fields sort m) blank (fields-IsSmall h) small
            ∙ ap (ok tt) apply_all-fields,
        record {
          same_id = refl;
          same_header = λ k. rebuild-same k (entries m.header) (sort (keys (entries m.header))) p;
          same_retry = refl;
          same_body = refl;
        },
      )
