-- ===== src/Broker/Message/Format.antt =====
-- The wire format of broker/message.proto, as plain lists: what the encoder is to write and the
-- decoder is to read. Nothing here is code of the program.
use kuja.Prelude.{ℕ, zero, suc, ◌+◌, ◌/◌, ◌%◌, leb, ltb, ◌==◌, if◌then◌else◌}
use kuja.Prelude.{Str, Option, none, some, List, [], ◌∷◌, ◌++◌, map, length, true, false}
use kuja.Prelude.Dict.{Dict, insert}
use kuja.Broker.Message.{Message, entries}
use kuja.Broker.Message.Size.{extend}
use kuja.Broker.Message.Marshal.{keys, value_of}
use Prim.Native.Nat.{bit_or}

-- Groups of seven bits, the lowest first, the top bit set on all but the last.
unfoldable pub groups : ℕ → ℕ → Str
groups zero v = v ∷ []
groups (suc rounds) v = elim (leb 128 v) [
  | true ↦ (v % 128 + 128) ∷ groups rounds (v / 128)
  | false ↦ v ∷ []
]

abbrev pub varint : ℕ → Str
varint v = groups v v

-- A tag, a length and a text.
abbrev pub text : ℕ → Str → Str
text tag s = tag ∷ (varint (length s) ++ s)

pub data Field : Type 0 where
  id : Str → Field
  entry : Str → Str → Field
  retry : ℕ → Field
  body : Str → Field

abbrev pub payload : Str → Str → Str
payload k v = text 0xa k ++ text 0x12 v

abbrev pub encode : Field → Str
encode (id s) = text 0xa s
encode (entry k v) = text 0x12 (payload k v)
encode (retry r) = 0x18 ∷ varint (extend r)
encode (body s) = text 0x22 s

abbrev pub encode_all : List Field → Str
encode_all [] = []
encode_all (f ∷ fs) = encode f ++ encode_all fs

-- What a field does to the message that is decoded. A second `Retry` is joined to the first.
abbrev pub apply : Field → Message → Message
apply (id s) m = record m { id = s }
apply (entry k v) m = record m { header = some (insert k v (entries m.header)) }
apply (retry r) m = record m { retry = bit_or m.retry r }
apply (body s) m = record m { body = some s }

abbrev pub apply_all : List Field → Message → Message
apply_all [] m = m
apply_all (f ∷ fs) m = apply_all fs (apply f m)

-- The fields that are written: an empty one is left out.
abbrev pub id_fields : Str → List Field
id_fields s = if ltb 0 (length s) then id s ∷ [] else []

abbrev pub entry_fields : Dict Str → List Str → List Field
entry_fields m ks = map (λ k. entry k (value_of k m)) ks

abbrev pub retry_fields : ℕ → List Field
retry_fields r = if r == 0 then [] else retry r ∷ []

abbrev pub body_fields : Option Str → List Field
body_fields none = []
body_fields (some b) = if ltb 0 (length b) then body b ∷ [] else []

abbrev pub fields : (List Str → List Str) → Message → List Field
fields sort m =
    id_fields m.id
    ++ (entry_fields (entries m.header) (sort (keys (entries m.header)))
        ++ (retry_fields m.retry ++ body_fields m.body))
