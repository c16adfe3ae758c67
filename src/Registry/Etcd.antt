-- ===== src/Registry/Etcd.antt =====
-- registry/etcd/etcd.go. The etcd client and filepath.Join are parameters.
pub mod Watcher
pub mod Lease
pub mod Laws
pub mod Discovery
mod Tests
use kuja.Prelude.{
  zero, suc, Bool, true, false, not, ◌&&◌, if◌then◌else◌, Option, none, some, List, [], ◌∷◌, ◌++◌,
  map, length, drop, Str, codes, str_eq, has_prefix,
}
use kuja.Prelude.Dict.{Dict, lookup, insert}
use kuja.Registry.{Node, NodeList, Asked, refused, gives}
use kuja.Registry.Mutex.{Cache, Step, M, pure, ◌>>=◌, ◌>>◌, cached, store, r_lock, r_unlock}

-- An etcd.Node, as deep as it is read: `values` are the values of its own nodes.
pub record EtcdNode : Type 0 where
  pub key : Str
  pub value : Str
  pub dir : Bool
  pub values : List Str

-- The results of `Get`: an error or nil, and the nodes of the response or a nil response.
pub record Got : Type 0 where
  pub error : Option Str
  pub nodes : Option (List EtcdNode)

pub record Etcd : Type 0 where
  pub get : Str → Got
  pub create : Str → Str → Option Str
  pub delete : Str → Option Str
  pub join : List Str → Str
  pub prefix : Str

-- A node of which the URL alone is known.
abbrev pub url_node : Str → Node
url_node url = record { id = []; name = []; host = []; port = []; address = []; url = url }

abbrev pub missing_node : Str
missing_node = codes "node should not be nil"

-- `strings.Replace(s, p, "", 1)`
unfoldable pub remove_first : Str → Str → Str
remove_first p [] = []
remove_first p (c ∷ s) =
    let rest = remove_first p s in
    if has_prefix (c ∷ s) p then drop (length p) (c ∷ s) else c ∷ rest

-- `err != nil && !strings.HasPrefix(err.Error(), "100: Key not found")`
abbrev pub is_fatal : Option Str → Bool
is_fatal none = false
is_fatal (some e) = not (has_prefix e (codes "100: Key not found"))

abbrev pub error_text : Option Str → Str
error_text none = []
error_text (some e) = e

-- The nodes of a service are those that are no directories.
unfoldable pub url_nodes : List EtcdNode → List Node
url_nodes [] = []
url_nodes (n ∷ rest) =
    let nodes = url_nodes rest in if n.dir then nodes else url_node n.value ∷ nodes

module _ (x : Etcd) where
  abbrev pub service_path : Str → Str
  service_path s = x.join (x.prefix ∷ s ∷ [])

  abbrev pub node_path : Str → Str → Str
  node_path s id = x.join (x.prefix ∷ s ∷ id ∷ [])

  -- `Register`, less the goroutine that it starts: its error, if any
  unfoldable pub register_node : Option Node → Option Str
  register_node none = some missing_node
  register_node (some node) = x.create (node_path node.name node.id) node.url

  unfoldable pub deregister_node : Option Node → Option Str
  deregister_node none = some missing_node
  deregister_node (some node) = x.delete (node_path node.name node.id)

  abbrev pub service_not_found : Str → Str
  service_not_found name = codes "service " ++ name ++ codes " not found"

  abbrev pub service_from : Str → Option (List EtcdNode) → Asked NodeList
  service_from name none = refused (service_not_found name)
  service_from name (some nodes) = gives (some (record { name = name; nodes = url_nodes nodes }))

  abbrev pub asked_service : Str → Got → Asked NodeList
  asked_service name got =
      if is_fatal got.error then refused (error_text got.error) else service_from name got.nodes

  abbrev pub service_or_asked : Str → Option NodeList → Asked NodeList
  service_or_asked name (some s) = gives (some s)
  service_or_asked name none = asked_service name (x.get (service_path name))

  unfoldable pub etcd_service : Str → M (Asked NodeList)
  unfolding url_nodes
  etcd_service name = do
    r_lock
    services ← cached
    r_unlock
    pure (service_or_asked name (lookup name services))

  -- The directories are the services.
  unfoldable pub directory_services : List EtcdNode → List NodeList
  directory_services [] = []
  directory_services (n ∷ rest) =
      let services = directory_services rest in
      if n.dir
      then record {
        name = remove_first (x.prefix ++ codes "/") n.key;
        nodes = map url_node n.values;
      }
        ∷ services
      else services

  abbrev pub services_from : Option (List EtcdNode) → List NodeList
  services_from none = []
  services_from (some nodes) = directory_services nodes

  -- The services or an error.
  pub data Listed : Type 0 where
    list_error : Str → Listed
    listed : List NodeList → Listed

  abbrev pub asked_services : Got → Listed
  asked_services got =
      if is_fatal got.error
      then list_error (error_text got.error)
      else listed (services_from got.nodes)

  -- The lock is given back only where the cache has no services.
  abbrev pub list_or_ask : Dict NodeList → M Listed
  list_or_ask [] = do r_unlock; pure (asked_services (x.get x.prefix))
  list_or_ask (e ∷ services) = pure (listed (map (λ f. f.1) (e ∷ services)))

  unfoldable pub etcd_services : M Listed
  unfolding directory_services remove_first
  etcd_services = do r_lock; services ← cached; list_or_ask services

  -- `e.services[s[i].Name] = s[i]`
  unfoldable pub store_services : List NodeList → Dict NodeList → Dict NodeList
  store_services [] d = d
  store_services (s ∷ rest) d = store_services rest (insert s.name s d)

  abbrev pub store_listed : Listed → M (Option Str)
  store_listed (list_error e) = pure (some e)
  store_listed (listed l) = do services ← cached; store (store_services l services); pure none

  -- `Watch`, up to the start of the watcher: its error, if any
  unfoldable pub watch_etcd : M (Option Str)
  unfolding etcd_services store_services
  watch_etcd = etcd_services >>= store_listed

-- The addresses that `NewRegistry` gives to the etcd client, and its prefix.
unfoldable pub client_addresses : List Str → List Str
client_addresses [] = []
client_addresses ([] ∷ rest) = client_addresses rest
client_addresses ((c ∷ addr) ∷ rest) = (c ∷ addr) ∷ client_addresses rest

abbrev pub or_default : List Str → List Str
or_default [] = codes "http://127.0.0.1:2379" ∷ []
or_default (a ∷ rest) = a ∷ rest

unfoldable pub new_registry : Str → List Str → Str × List Str
unfolding client_addresses
new_registry prefix addrs = (
  if str_eq prefix [] then codes "/_kuja-registry" else prefix,
  or_default (client_addresses addrs),
)
