-- ===== src/Registry/Etcd/Discovery.antt =====
-- A service from the server that registers it in etcd to the path that a client asks for.
mod Tests
use native.Mathlib.Nat.{mod-lt}
use kuja.Prelude.{
  ℕ, ◌%◌, ◌<◌, ◌≡◌, ◌≢◌, refl, ap, ◌∙◌, arith, false, Option, none, some, List, [], ◌∷◌, ◌++◌, All,
  Str, get_elem?, get_elem?-All, length,
}
use kuja.Prelude.Dict.{lookup}
use kuja.Registry.{Node, NodeList, Asked, gives}
use kuja.Registry.Mutex.{Cache, done}
use kuja.Registry.Etcd.{
  EtcdNode, Got, Etcd, url_node, url_nodes, service_path, asked_service, service_from,
  service_or_asked, etcd_service,
}
use kuja.Server.Lifecycle.{Hosted, node_of}
use kuja.Server.Route.{get_service_method}
use kuja.Server.Route.Laws.{NoSlash, route_path, get_service_method-route_path}
use kuja.Client.Address.{address, address_of, pick_node, get_address_discovery}
use mathlib.Core.List.{Mem}

-- A node that a server which hosts the service has registered, at one of the addresses.
abbrev pub RegisteredAt : Str → Hosted → List Str → Str → Type 0
RegisteredAt scheme s addrs url =
    (addr : Str) × Mem addr addrs × (url ≡ (node_of scheme addr s).url)

url_nodes-All :
    (P : Str → Type 0) (l : List EtcdNode)
    → All (λ n. (n.dir ≡ false) × P n.value) l
    → l ≢ []
    → All (λ n. P n.url) (url_nodes l) × (url_nodes l ≢ [])
unfolding url_nodes
url_nodes-All P [] all ne = absurd (ne refl)
url_nodes-All P (n ∷ []) ((leaf, p), all) ne = rw leaf ((p, tt), (λ e. cc))
url_nodes-All P (n ∷ k ∷ l) ((leaf, p), all) ne =
    rw leaf ((p, (url_nodes-All P (k ∷ l) all (λ e. cc)).0), (λ e. cc))

picked_address :
    (P : Str → Type 0) (ns : List Node) (random : ℕ) (service method : Str)
    → All (λ n. P n.url) ns
    → ns ≢ []
    → (url : Str) × P url
      × (address_of service method (pick_node random ns)
          ≡ address (url ++ route_path service method))
picked_address P [] random service method all ne = absurd (ne refl)
picked_address P (n ∷ ns) random service method all ne =
    let (node, p, e) =
      get_elem?-All (λ n. P n.url) (n ∷ ns) (random % length (n ∷ ns)) all
        (mod-lt random (omega arith)) in
    (node.url, p, ap (address_of service method) e)

module _ (x : Etcd) where
  etcd_service-readable :
      (name : Str) (c : Cache)
      → c.writer ≡ false
      → etcd_service x name c ≡ done (service_or_asked x name (lookup name c.services)) c
  unfolding etcd_service
  etcd_service-readable name c free = rw (free, etcd_service) refl

  asked_service-nodes :
      (name : Str) (got : Got) (nodes : List EtcdNode)
      → got.error ≡ none
      → got.nodes ≡ some nodes
      → asked_service x name got ≡ service_from x name (some nodes)
  asked_service-nodes name got nodes e f = rw (e, f) refl

  -- Where the keys below a service's path are those that servers on some addresses have registered,
  -- a client with a fresh cache asks one of these servers, and the path that it asks for names the
  -- service and the method, where the service has no slash and the method does not end in one.
  pub etcd_service-get_service_method :
      (scheme : Str) (s : Hosted) (addrs : List Str) (front : Str) (last random : ℕ) (c : Cache)
      (nodes : List EtcdNode)
      → NoSlash s.name
      → last ≢ b'/'
      → c.writer ≡ false
      → lookup s.name c.services ≡ none
      → (x.get (service_path x s.name)).error ≡ none
      → (x.get (service_path x s.name)).nodes ≡ some nodes
      → nodes ≢ []
      → All (λ n. (n.dir ≡ false) × RegisteredAt scheme s addrs n.value) nodes
      → let method : Str = front ++ (last ∷ []) in
        (found : Asked NodeList) × (addr : Str) × (path : Str) × Mem addr addrs
        × (etcd_service x s.name c ≡ done found c)
        × (get_address_discovery found random s.name method ≡ address ((scheme ++ addr) ++ path))
        × (get_service_method path ≡ (s.name, method))
  unfolding get_address_discovery
  etcd_service-get_service_method scheme s addrs front last random c nodes plain ends free missing
        ok asked some_nodes all =
      let method : Str = front ++ (last ∷ []) in
      let (urls, some_urls) = url_nodes-All (RegisteredAt scheme s addrs) nodes all some_nodes in
      let (url, (addr, at, e), picked) =
        picked_address (RegisteredAt scheme s addrs) (url_nodes nodes) random s.name method urls
          some_urls in
      let from : service_or_asked x s.name (lookup s.name c.services)
          ≡ service_from x s.name (some nodes) =
        ap (service_or_asked x s.name) missing
        ∙ asked_service-nodes s.name (x.get (service_path x s.name)) nodes ok asked in
      (
        service_or_asked x s.name (lookup s.name c.services),
        addr,
        route_path s.name method,
        at,
        etcd_service-readable s.name c free,
        ap (λ a. get_address_discovery a random s.name method) from
            ∙ picked
            ∙ ap (λ u. address (u ++ route_path s.name method)) e,
        get_service_method-route_path s.name front last plain ends,
      )
