-- ===== src/Registry/Etcd/Lease.antt =====
-- The keys of the nodes that registry/etcd/etcd.go registers: `Register` starts a goroutine that sets
-- the key once in a minute, and nothing ends it.
use mathlib.Core.List.{Mem, mem-cons_self, mem-cons_of_mem}
use kuja.Prelude.{◌≡◌, some, List, ◌∷◌, Str}
use kuja.Prelude.Dict.{Dict, lookup, insert, delete, lookup-insert_self}

-- The keys in etcd, and the goroutines by the key and the URL that they set.
pub record Store : Type 0 where
  pub keys : Dict Str
  pub refreshers : List (Str × Str)

pub data KeyStep (s : Store) : Store → Type 0 where
  -- `Register`, where `Create` succeeds and where it fails
  registers :
      (path url : Str)
      → KeyStep s
          (record { keys = insert path url s.keys; refreshers = (path, url) ∷ s.refreshers })
  register_fails :
      (path url : Str) → KeyStep s (record s { refreshers = (path, url) ∷ s.refreshers })
  -- `Deregister`, or the end of the 120 seconds that a key lives
  deletes : (path : Str) → KeyStep s (record s { keys = delete path s.keys })
  refreshes :
      (path url : Str)
      → Mem (path, url) s.refreshers
      → KeyStep s (record s { keys = insert path url s.keys })

pub data Later (s : Store) : Store → Type 0 where
  here : Later s s
  next : {t u : Store} → Later s t → KeyStep t u → Later s u

KeyStep-refreshers :
    {s t : Store} (e : Str × Str) → KeyStep s t → Mem e s.refreshers → Mem e t.refreshers
KeyStep-refreshers e (registers path url) m = mem-cons_of_mem (path, url) m
KeyStep-refreshers e (register_fails path url) m = mem-cons_of_mem (path, url) m
KeyStep-refreshers e (deletes path) m = m
KeyStep-refreshers e (refreshes path url h) m = m

Later-refreshers :
    {s t : Store} (e : Str × Str) → Later s t → Mem e s.refreshers → Mem e t.refreshers
Later-refreshers e here m = m
Later-refreshers e (next l c) m = KeyStep-refreshers e c (Later-refreshers e l m)

-- Whatever happens after `Register` of a node, `Deregister` included, a next step puts its key back.
pub register-returns :
    (path url : Str) (s t : Store)
    → Later (record { keys = insert path url s.keys; refreshers = (path, url) ∷ s.refreshers }) t
    → (u : Store) × KeyStep t u × (lookup path u.keys ≡ some url)
register-returns path url s t later = (
  record t { keys = insert path url t.keys },
  refreshes path url (Later-refreshers (path, url) later mem-cons_self),
  lookup-insert_self path url t.keys,
)
