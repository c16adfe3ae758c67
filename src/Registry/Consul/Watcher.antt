-- ===== src/Registry/Consul/Watcher.antt =====
-- registry/consul/watcher.go: the handlers of the watch plans.
use kuja.Prelude.{
  ℤ, Bool, true, false, if◌then◌else◌, ◌&&◌, not, Option, none, some, List, [], ◌∷◌, ◌++◌, Str,
  str_eq,
}
use kuja.Prelude.Dict.{Dict, insert, delete}
use kuja.Registry.{NodeList}
use kuja.Registry.Mutex.{M, pure, ◌>>=◌, ◌>>◌, cached, store, r_lock, r_unlock, lock, unlock}
use kuja.Registry.Consul.{Catalog, consul_node}

-- An api.ServiceEntry.
pub record ServiceEntry : Type 0 where
  pub service : Str
  pub service_id : Str
  pub address : Str
  pub port : ℤ

module _ (x : Catalog) where
  abbrev pub add_entry : ServiceEntry → NodeList → NodeList
  add_entry e s = record {
    name = e.service;
    nodes = s.nodes ++ (consul_node x e.service_id e.address e.port ∷ []);
  }

  -- The range over the entries: the name is that of the last one.
  unfoldable pub add_entries : List ServiceEntry → NodeList → NodeList
  add_entries [] s = s
  add_entries (e ∷ entries) s = add_entries entries (add_entry e s)

  -- `serviceHandler`; `none` is data of another type.
  abbrev pub service_handler : Option (List ServiceEntry) → M (Unit {0})
  service_handler none = pure tt
  service_handler (some entries) = do
    let cs = add_entries entries (record { name = []; nodes = [] })
    lock
    services ← cached
    store (insert cs.name cs services)
    unlock

abbrev pub has : Str → List Str → Bool
has s [] = false
has s (t ∷ ts) = let rest = has s ts in if str_eq t s then true else rest

-- `parses` tells whether watch.Parse makes a plan for a service.
module _ (parses : Str → Bool) where
  -- New watchers, by the name of the service.
  unfoldable pub add_watchers : List Str → List Str → List Str
  add_watchers [] watchers = watchers
  add_watchers (s ∷ services) watchers =
      add_watchers services (if not (has s watchers) && parses s then s ∷ watchers else watchers)

  -- The watchers that stay.
  unfoldable pub keep_watchers : List Str → List Str → List Str
  keep_watchers services [] = []
  keep_watchers services (w ∷ watchers) =
      let rest = keep_watchers services watchers in if has w services then w ∷ rest else rest

  -- The watchers that go, each of which is stopped.
  unfoldable pub stopped_watchers : List Str → List Str → List Str
  stopped_watchers services [] = []
  stopped_watchers services (w ∷ watchers) =
      let rest = stopped_watchers services watchers in if has w services then rest else w ∷ rest

  abbrev pub delete_locked : Str → M (Unit {0})
  delete_locked s = do lock; services ← cached; store (delete s services); unlock

  abbrev pub drop_if : Bool → Str → M (Unit {0})
  drop_if true s = pure tt
  drop_if false s = delete_locked s

  -- The range over the services of the registry, which deletes from the map that it ranges over.
  unfoldable pub drop_unknown : List Str → Dict NodeList → M (Unit {0})
  drop_unknown known [] = pure tt
  drop_unknown known ((s, nodes) ∷ rest) = do drop_if (has s known) s; drop_unknown known rest

  -- `Handle`: the watchers afterwards, and those on which `Stop` is called
  unfoldable pub handle : List Str → List Str → M (List Str × List Str)
  unfolding add_watchers keep_watchers stopped_watchers drop_unknown
  handle watchers known = do
    let more = add_watchers known watchers
    r_lock
    services ← cached
    r_unlock
    drop_unknown known services
    pure (keep_watchers known more, stopped_watchers known more)
