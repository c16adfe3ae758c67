-- ===== src/Client/Wire.antt =====
-- The transport between a server and a client, as far as net/http documents it.
use kuja.Prelude.{
  ℕ, ◌≤◌, ◌/◌, ◌≢◌, leb, ◌==◌, ◌&&◌, ◌||◌, not, Bool, true, false, All, arith, ◌≡◌, refl, ap,
  if◌then◌else◌, List, [], ◌∷◌, ◌++◌, map, Str, codes, str_eq,
}
use kuja.Prelude.Dict.{Dict}
use kuja.Server.Rpc.{Call, set_header, write_header, write}
use kuja.Client.Request.{HttpResponse}

abbrev pub joined : List Str → Str
joined [] = []
joined (s ∷ ss) = s ++ joined ss

-- The value of the last pair of a name, in its canonical form; empty if there is none.
abbrev pub last_value : (Str → Str) → Str → Dict Str → Str → Str
last_value canonical name [] found = found
last_value canonical name ((k, v) ∷ rest) found =
    last_value canonical name rest (if str_eq (canonical k) name then v else found)

abbrev pub sets : Dict Str → List Call
sets = map (λ e. set_header e.0 e.1)

abbrev pub is_visible : ℕ → Bool
is_visible b = leb 33 b && leb b 126

abbrev pub printable_from : Bool → Str → Bool
printable_from ends [] = ends
printable_from ends (b ∷ s) =
    if is_visible b then printable_from true s else (b == 32) && printable_from false s

-- A header value that arrives as it was set: visible ASCII, with spaces inside at most.
abbrev pub is_printable : Str → Bool
is_printable [] = false
is_printable (b ∷ s) = is_visible b && printable_from true s

-- The statuses of answers with a body that the client takes as they are: no 1xx and no 204, and no
-- 3xx, which it may follow.
abbrev pub HasBody : ℕ → Type 0
HasBody n = (200 ≤ n) × (n ≤ 999) × (n ≢ 204) × (n / 100 ≢ 3)

abbrev pub is_word : Str → Bool
is_word [] = true
is_word (b ∷ s) =
    ((leb b'a' b && leb b b'z')
      || ((leb b'A' b && leb b b'Z') || ((leb b'0' b && leb b b'9') || (b == b'-'))))
    && is_word s

-- A header's name of letters, digits and dashes that has no say in how the body is sent.
abbrev pub is_plain_name : Str → Bool
is_plain_name k =
    not (str_eq k [])
    && (is_word k
        && not (
            str_eq k (codes "Content-Length")
            || (str_eq k (codes "Transfer-Encoding")
                || (str_eq k (codes "Content-Encoding")
                    || (str_eq k (codes "Trailer") || str_eq k (codes "Connection"))))))

-- The names, in their canonical form, are plain.
abbrev pub IsPlain : (Str → Str) → Dict Str → Type 0
IsPlain canonical = All (λ e. is_plain_name (canonical e.0) ≡ true)

-- What net/http does with a handler that sets headers, writes the status and then the body: the
-- laws are for headers that leave the body alone, and for statuses with a body. Of a header that is
-- not set only Snappy is known to be empty; net/http may make up a content type.
pub record Wire : Type 0 where
  pub canonical : Str → Str
  pub deliver : List Call → HttpResponse
  pub canonical_type : canonical (codes "Content-Type") ≡ codes "Content-Type"
  pub canonical_snappy : canonical (codes "Snappy") ≡ codes "Snappy"
  pub status :
      (hs : Dict Str) (n : ℕ) (ws : List Str)
      → IsPlain canonical hs
      → HasBody n
      → (deliver (sets hs ++ (write_header n ∷ map write ws))).status ≡ n
  pub body :
      (hs : Dict Str) (n : ℕ) (ws : List Str)
      → IsPlain canonical hs
      → HasBody n
      → (deliver (sets hs ++ (write_header n ∷ map write ws))).body ≡ joined ws
  pub content_type :
      (hs : Dict Str) (n : ℕ) (ws : List Str) (v : Str)
      → IsPlain canonical hs
      → HasBody n
      → is_printable v ≡ true
      → last_value canonical (codes "Content-Type") hs [] ≡ v
      → (deliver (sets hs ++ (write_header n ∷ map write ws))).content_type ≡ v
  pub snappy :
      (hs : Dict Str) (n : ℕ) (ws : List Str) (v : Str)
      → IsPlain canonical hs
      → HasBody n
      → is_printable v ≡ true
      → last_value canonical (codes "Snappy") hs [] ≡ v
      → (deliver (sets hs ++ (write_header n ∷ map write ws))).snappy ≡ v
  pub no_snappy :
      (hs : Dict Str) (n : ℕ) (ws : List Str)
      → IsPlain canonical hs
      → HasBody n
      → last_value canonical (codes "Snappy") hs [] ≡ []
      → (deliver (sets hs ++ (write_header n ∷ map write ws))).snappy ≡ []

pub ok-HasBody : HasBody 200
ok-HasBody = (omega arith, omega arith, (λ e. omega (arith, e)), (λ e. omega (arith, e)))

pub error-HasBody : HasBody 500
error-HasBody = (omega arith, omega arith, (λ e. omega (arith, e)), (λ e. omega (arith, e)))

module _ (w : Wire) where
  -- The headers that the server sets for an answer are plain.
  pub type-IsPlain : (ct : Str) → IsPlain w.canonical ((codes "Content-Type", ct) ∷ [])
  unfolding str_eq
  type-IsPlain ct = (rw (w.canonical_type) refl, tt)

  pub flagged-IsPlain :
      (ct : Str)
      → IsPlain w.canonical ((codes "Content-Type", ct) ∷ (codes "Snappy", codes "true") ∷ [])
  unfolding str_eq
  flagged-IsPlain ct = (rw (w.canonical_type) refl, (rw (w.canonical_snappy) refl, tt))

pub last_value-append :
    (canonical : Str → Str) (name : Str) (hs gs : Dict Str) (found : Str)
    → last_value canonical name (hs ++ gs) found
      ≡ last_value canonical name gs (last_value canonical name hs found)
last_value-append canonical name [] gs found = refl
last_value-append canonical name ((k, v) ∷ hs) gs found =
    last_value-append canonical name hs gs (if str_eq (canonical k) name then v else found)

pub sets-append :
    (hs gs : Dict Str) (cs : List Call) → sets hs ++ (sets gs ++ cs) ≡ sets (hs ++ gs) ++ cs
sets-append [] gs cs = refl
sets-append (h ∷ hs) gs cs = ap (λ l. set_header h.0 h.1 ∷ l) (sets-append hs gs cs)
