-- ===== src/Client/Headers.antt =====
-- The headers of a request: those of the call over those of the client over the content type.
use kuja.Prelude.{
  ◌≡◌, refl, ap, ◌∙◌, if◌then◌else◌, Option, none, some, [], ◌∷◌, Str, codes, str_eq,
}
use kuja.Prelude.Dict.{Dict, lookup, insert, lookup-insert}
use kuja.Client.Request.{ClientExternals, ClientEncoder, set_headers, request_headers}

-- The value of the last pair of a list whose canonical name is `k`; `found` if there is none.
abbrev pub last_of : (Str → Str) → Str → Dict Str → Option Str → Option Str
last_of canonical k [] found = found
last_of canonical k ((name, v) ∷ rest) found =
    last_of canonical k rest (if str_eq (canonical name) k then some v else found)

module _ (x : ClientExternals) where
  open x use {Value, canonical}

  lookup-set_headers :
      (k : Str) (l h : Dict Str) → lookup k (set_headers x l h) ≡ last_of canonical k l (lookup k h)
  unfolding set_headers
  lookup-set_headers k [] h = refl
  lookup-set_headers k ((name, v) ∷ l) h =
      lookup-set_headers k l (insert (canonical name) v h)
      ∙ ap (last_of canonical k l) (lookup-insert (canonical name) k v h)

  -- The value of a header of a request is that of the call's last pair of this name, else that of the
  -- client's last pair of this name, else the encoder's content type for that name.
  pub lookup-request_headers :
      (enc : ClientEncoder Value) (defaults header : Dict Str) (k : Str)
      → lookup k (request_headers x enc defaults header)
        ≡ last_of canonical k header (
            last_of canonical k defaults
              (if str_eq (canonical (codes "Content-Type")) k then some enc.content_type else none))
  unfolding lookup
  lookup-request_headers enc defaults header k =
      lookup-set_headers k header _
      ∙ ap (last_of canonical k header) (
          lookup-set_headers k defaults _
          ∙ ap (last_of canonical k defaults)
              (lookup-insert (canonical (codes "Content-Type")) k enc.content_type []))
