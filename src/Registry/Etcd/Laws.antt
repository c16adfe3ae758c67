-- ===== src/Registry/Etcd/Laws.antt =====
-- What the watcher of etcd does to the cache.
use kuja.Prelude.{
  ◌/◌, ◌≡◌, ◌≢◌, ◌⊎◌, inl, inr, refl, sym, arith, Bool, true, false, Bool-cases, Option, none, some,
  List, [], ◌∷◌, All, length, Str, codes, str_eq, str_eq_self,
}
use kuja.Prelude.Dict.{Dict, lookup, lookup-insert_ne}
use kuja.Registry.{Node, NodeList}
use kuja.Registry.Mutex.{Cache, Step, done, fatal, M, IsFree}
use kuja.Registry.Etcd.{url_node}
use kuja.Registry.Etcd.Watcher.{
  Change, delete_nodes, changed, with_url, with_value, unless_dir, on_change,
}

-- The named services of a cache are those of another, and the lock is free.
pub record KeepsNamed (c c' : Cache) : Type 0 where
  pub free : IsFree c'
  pub named : (k : Str) → k ≢ [] → lookup k c'.services ≡ lookup k c.services

-- A step that panics or returns with the named services as they were.
abbrev pub Harmless : Cache → Step (Unit {0}) → Type 0
Harmless c r = (r ≡ fatal) ⊎ ((c' : Cache) × (r ≡ done tt c') × KeepsNamed c c')

changed-named :
    (action url k : Str) (o : Option NodeList) (d : Dict NodeList)
    → k ≢ []
    → lookup k (changed action (url_node url) o d) ≡ lookup k d
changed-named action url k (some s) d ne = lookup-insert_ne [] k _ d (λ e. ne (sym e))
changed-named action url k none d ne = elim (Bool-cases (str_eq action (codes "create"))) [
  | inl create ↦ rw create (lookup-insert_ne [] k _ d (λ e. ne (sym e)))
  | inr other ↦ rw other refl
]

with_url-Harmless : (action url : Str) (c : Cache) → IsFree c → Harmless c (with_url action url c)
with_url-Harmless action [] c free = inr (c, refl, record { free = free; named = λ k ne. refl })
with_url-Harmless action (b ∷ url) c free =
    let d = c.services in
    inr (
      record {
        services = changed action (url_node (b ∷ url)) (lookup [] d) d;
        readers = 0;
        writer = false;
      },
      rw (free.no_readers, free.no_writer) refl,
      record {
        free = record { no_readers = refl; no_writer = refl };
        named = λ k ne. changed-named action (b ∷ url) k (lookup [] d) d ne;
      },
    )

with_value-Harmless :
    (r : Change) (value : Str) (prev : Option Str) (c : Cache)
    → r.prev ≡ prev
    → IsFree c
    → Harmless c (with_value r value c)
with_value-Harmless r (b ∷ url) prev c e free = with_url-Harmless r.action (b ∷ url) c free
with_value-Harmless r [] none c e free = inl (rw e refl)
with_value-Harmless r [] (some url) c e free = rw e (with_url-Harmless r.action url c free)

unless_dir-Harmless :
    (dir : Bool) (m : M (Unit {0})) (c : Cache)
    → IsFree c
    → Harmless c (m c)
    → Harmless c (unless_dir dir m c)
unless_dir-Harmless true m c free h = inr (c, refl, record { free = free; named = λ k ne. refl })
unless_dir-Harmless false m c free h = h

-- Whatever change etcd reports, the watcher panics or leaves each service with a name as it was: the
-- nodes that come and go are those of a service with an empty name.
pub on_change-Harmless : (r : Change) (c : Cache) → IsFree c → Harmless c (on_change r c)
unfolding on_change
on_change-Harmless r c free =
    unless_dir-Harmless r.dir (with_value r r.value) c free
      (with_value-Harmless r r.value r.prev c refl free)

-- The loop that deletes a node leaves half of the nodes, rounded down, where all have the identifier
-- that it looks for, as those of the watcher have.
pub delete_nodes-half :
    (id : Str) (l : List Node) → All (λ n. n.id ≡ id) l → length (delete_nodes id l) ≡ length l / 2
unfolding delete_nodes
delete_nodes-half id [] all = omega arith
delete_nodes-half id (n ∷ []) (e, all) = rw (e, str_eq_self id) (omega arith)
delete_nodes-half id (n ∷ k ∷ rest) (e, (f, all)) =
    rw (e, str_eq_self id) (omega (arith, delete_nodes-half id rest all))
