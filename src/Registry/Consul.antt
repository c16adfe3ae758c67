-- ===== src/Registry/Consul.antt =====
-- registry/consul/consul.go. The consul catalog is a parameter.
pub mod Watcher
pub mod Laws
pub mod Locks
pub mod Address
pub mod Start
mod Tests
use kuja.Prelude.{
  ℤ, Bool, true, false, if◌then◌else◌, Option, none, some, List, [], ◌∷◌, map, Str, codes, str_eq,
}
use kuja.Prelude.Dict.{Dict, lookup, insert}
use kuja.Registry.{Node, NodeList, Asked, refused, gives}
use kuja.Registry.Mutex.{Cache, Step, M, pure, ◌>>=◌, ◌>>◌, cached, store, r_lock, r_unlock}

-- A service of the catalog.
pub record CatalogService : Type 0 where
  pub service_name : Str
  pub service_id : Str
  pub address : Str
  pub service_port : ℤ

-- What `Register` sends.
pub record CatalogRegistration : Type 0 where
  pub node : Str
  pub address : Str
  pub id : Str
  pub service : Str
  pub port : ℤ

pub data CatalogReply (A : Type 0) : Type 0 where
  error : Str → CatalogReply A
  reply : A → CatalogReply A

-- `atoi` is the number that strconv.Atoi gives, also where it gives an error.
pub record Catalog : Type 0 where
  pub service : Str → CatalogReply (List CatalogService)
  pub services : CatalogReply (List Str)
  pub register : CatalogRegistration → Option Str
  pub deregister : Str → Option Str
  pub itoa : ℤ → Str
  pub atoi : Str → ℤ

abbrev pub no_node : Str
no_node = codes "node should not be nil"

module _ (x : Catalog) where
  open x use {itoa, atoi}

  abbrev pub registration : Node → CatalogRegistration
  registration node = record {
    node = node.id;
    address = node.address;
    id = node.id;
    service = node.name;
    port = atoi node.port;
  }

  unfoldable pub register : Option Node → Option Str
  register none = some no_node
  register (some node) = x.register (registration node)

  unfoldable pub deregister : Option Node → Option Str
  deregister none = some no_node
  deregister (some node) = x.deregister node.id

  -- The nodes that `GetService` and the watcher make have an identifier, an address and a port only.
  abbrev pub consul_node : Str → Str → ℤ → Node
  consul_node id address port = record {
    id = id;
    name = [];
    host = [];
    port = itoa port;
    address = address;
    url = [];
  }

  unfoldable pub nodes_of : Str → List CatalogService → List Node
  nodes_of name [] = []
  nodes_of name (s ∷ rest) =
      let nodes = nodes_of name rest in
      if str_eq s.service_name name
      then consul_node s.service_id s.address s.service_port ∷ nodes
      else nodes

  abbrev pub from_catalog : Str → CatalogReply (List CatalogService) → Asked NodeList
  from_catalog name (error e) = refused e
  from_catalog name (reply rsp) = gives (some (record { name = name; nodes = nodes_of name rsp }))

  abbrev pub known_or_asked : Str → Option NodeList → Asked NodeList
  known_or_asked name (some s) = gives (some s)
  known_or_asked name none = from_catalog name (x.service name)

  unfoldable pub get_service : Str → M (Asked NodeList)
  unfolding nodes_of
  get_service name = do
    r_lock
    services ← cached
    r_unlock
    pure (known_or_asked name (lookup name services))

  abbrev pub named_only : Str → NodeList
  named_only name = record { name = name; nodes = [] }

  abbrev pub listed_services : CatalogReply (List Str) → CatalogReply (List NodeList)
  listed_services (error e) = error e
  listed_services (reply names) = reply (map named_only names)

  -- The lock is given back only where the cache has no services.
  abbrev pub list_cached : Dict NodeList → M (CatalogReply (List NodeList))
  list_cached [] = do r_unlock; pure (listed_services x.services)
  list_cached (e ∷ services) = pure (reply (map (λ f. f.1) (e ∷ services)))

  unfoldable pub list_services : M (CatalogReply (List NodeList))
  list_services = do r_lock; services ← cached; list_cached services

  -- `e.services[s.Name] = s`, without the lock
  abbrev pub remember : Asked NodeList → M (Option Str)
  remember (refused e) = pure (some e)
  remember (gives none) = pure none
  remember (gives (some s)) = do services ← cached; store (insert s.name s services); pure none

  abbrev pub unless_error : M (Option Str) → Option Str → M (Option Str)
  unless_error m (some e) = pure (some e)
  unless_error m none = m

  unfoldable pub fill : List NodeList → M (Option Str)
  unfolding get_service
  fill [] = pure none
  fill (s ∷ rest) = do found ← get_service s.name; e ← remember found; unless_error (fill rest) e

  abbrev pub fill_listed : CatalogReply (List NodeList) → M (Option Str)
  fill_listed (error e) = pure (some e)
  fill_listed (reply services) = fill services

  -- `Watch`, up to the start of the watcher: its error, if any
  unfoldable pub watch : M (Option Str)
  unfolding list_services fill
  watch = list_services >>= fill_listed
