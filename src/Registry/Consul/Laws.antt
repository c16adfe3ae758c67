-- ===== src/Registry/Consul/Laws.antt =====
-- What the watcher's `Handle` makes of the cache and of the watchers, and the nodes that a client gets.
use kuja.Prelude.{
  ◌≡◌, refl, ap, ◌∙◌, arith, Bool, true, false, ◌&&◌, not, ◌||◌, Bool-cases, inl, inr,
  if◌then◌else◌, none, List, [], ◌∷◌, Str, str_eq, str_eq_iff,
}
use kuja.Prelude.Dict.{Dict, lookup, delete, lookup-delete}
use kuja.Registry.{NodeList}
use kuja.Registry.Mutex.{Cache, done, pure, continue, IsFree}
use kuja.Registry.Consul.Watcher.{
  has, add_watchers, keep_watchers, stopped_watchers, drop_unknown, handle,
}

abbrev freed : Dict NodeList → Cache
freed d = record { services = d; readers = 0; writer = false }

-- What `drop_unknown` makes of a map, while it ranges over another.
abbrev dropped : List Str → Dict NodeList → Dict NodeList → Dict NodeList
dropped known [] d = d
dropped known ((s, nodes) ∷ rest) d = dropped known rest (if has s known then d else delete s d)

abbrev is_key : Str → Dict NodeList → Bool
is_key k [] = false
is_key k ((s, nodes) ∷ rest) = let more = is_key k rest in if str_eq s k then true else more

module _ (parses : Str → Bool) where
  drop_unknown-dropped :
      (known : List Str) (l d : Dict NodeList)
      → drop_unknown parses known l (freed d) ≡ done tt (freed (dropped known l d))
  unfolding drop_unknown
  drop_unknown-dropped known [] d = refl
  drop_unknown-dropped known ((s, nodes) ∷ rest) d = elim (Bool-cases (has s known)) [
    | inl kept ↦ rw (kept) (drop_unknown-dropped known rest d)
    | inr gone ↦ rw (gone) (drop_unknown-dropped known rest (delete s d))
  ]

  lookup-dropped :
      (known : List Str) (l d : Dict NodeList) (k : Str)
      → lookup k (dropped known l d)
        ≡ (if has k known then lookup k d else (if is_key k l then none else lookup k d))
  unfolding lookup
  lookup-dropped known [] d k = ground arith
  lookup-dropped known ((s, nodes) ∷ rest) d k =
      lookup-dropped known rest (if has s known then d else delete s d) k
      ∙ elim (Bool-cases (str_eq s k)) [
        | inl same ↦
            let e : has s known ≡ has k known = ap (λ t. has t known) ((str_eq_iff s k).0 same) in
            ground (arith, same, e, lookup-delete s k d)
        | inr other ↦ ground (arith, other, lookup-delete s k d)
      ]

  lookup-not_key : (k : Str) (d : Dict NodeList) → is_key k d ≡ false → lookup k d ≡ none
  unfolding lookup
  lookup-not_key k [] e = refl
  lookup-not_key k ((s, nodes) ∷ rest) e = ground (arith, e, lookup-not_key k rest)

  has-keep_watchers :
      (k : Str) (known watchers : List Str)
      → has k (keep_watchers parses known watchers) ≡ (has k known && has k watchers)
  unfolding keep_watchers
  has-keep_watchers k known [] = ground arith
  has-keep_watchers k known (w ∷ watchers) =
      let ih = has-keep_watchers k known watchers in
      elim (Bool-cases (str_eq w k)) [
        | inl same ↦
            let e : has w known ≡ has k known = ap (λ t. has t known) ((str_eq_iff w k).0 same) in
            ground (arith, same, e, ih)
        | inr other ↦ ground (arith, other, ih)
      ]

  has-stopped_watchers :
      (k : Str) (known watchers : List Str)
      → has k (stopped_watchers parses known watchers) ≡ (not (has k known) && has k watchers)
  unfolding stopped_watchers
  has-stopped_watchers k known [] = ground arith
  has-stopped_watchers k known (w ∷ watchers) =
      let ih = has-stopped_watchers k known watchers in
      elim (Bool-cases (str_eq w k)) [
        | inl same ↦
            let e : has w known ≡ has k known = ap (λ t. has t known) ((str_eq_iff w k).0 same) in
            ground (arith, same, e, ih)
        | inr other ↦ ground (arith, other, ih)
      ]

  has-add_watchers :
      (k : Str) (known watchers : List Str)
      → has k (add_watchers parses known watchers) ≡ (has k watchers || (has k known && parses k))
  unfolding add_watchers
  has-add_watchers k [] watchers = ground arith
  has-add_watchers k (s ∷ known) watchers =
      has-add_watchers k known _ ∙ elim (Bool-cases (str_eq s k)) [
        | inl same ↦
            let e : s ≡ k = (str_eq_iff s k).0 same in
            let f : has s watchers ≡ has k watchers = ap (λ t. has t watchers) e in
            let g : parses s ≡ parses k = ap parses e in ground (arith, same, f, g)
        | inr other ↦ ground (arith, other)
      ]

  -- `Handle` on a free cache returns and leaves it free: the services that consul does not know are
  -- gone from the cache and the others as they were, the watchers are those of the known services that
  -- were watched before or for which a plan can be made, and those that are stopped are the watchers
  -- of before whose services consul does not know.
  pub handle_lem :
      (watchers known : List Str) (c : Cache)
      → IsFree c
      → (ws stopped : List Str) × (c' : Cache) × (handle parses watchers known c
          ≡ done (ws, stopped) c')
        × IsFree c'
        × ((k : Str)
            → (lookup k c'.services ≡ (if has k known then lookup k c.services else none))
              × (has k ws ≡ (has k known && (has k watchers || parses k)))
              × (has k stopped ≡ (not (has k known) && has k watchers)))
  unfolding handle
  handle_lem watchers known c free =
      let d = c.services in
      let ran = drop_unknown-dropped known d d in
      let ws = keep_watchers parses known (add_watchers parses known watchers) in
      let stopped = stopped_watchers parses known (add_watchers parses known watchers) in
      (
        ws,
        stopped,
        freed (dropped known d d),
        rw (free.no_readers, free.no_writer) (ap (continue (λ u. pure (ws, stopped))) ran),
        record { no_readers = refl; no_writer = refl },
        λ k. (
          lookup-dropped known d d k ∙ ground (arith, lookup-not_key k d),
          has-keep_watchers k known (add_watchers parses known watchers)
              ∙ ground (arith, has-add_watchers k known watchers),
          has-stopped_watchers k known (add_watchers parses known watchers)
              ∙ ground (arith, has-add_watchers k known watchers),
        ),
      )
