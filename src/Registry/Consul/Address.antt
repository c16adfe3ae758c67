-- ===== src/Registry/Consul/Address.antt =====
-- The address that a client finds by way of consul.
use native.Mathlib.Nat.{mod-lt}
use kuja.Prelude.{
  ℕ, ◌%◌, ◌≡◌, ◌≢◌, refl, ap, ◌∙◌, arith, false, Bool-cases, inl, inr, none, List, [], ◌∷◌, ◌++◌,
  All, Str, str_eq, get_elem?-All, length,
}
use kuja.Prelude.Dict.{lookup}
use kuja.Registry.{Node, NodeList, Asked}
use kuja.Registry.Mutex.{Cache, done}
use kuja.Registry.Consul.{
  Catalog, CatalogService, reply, from_catalog, known_or_asked, nodes_of, get_service,
}
use kuja.Registry.Consul.Locks.{get_service-readable}
use kuja.Server.Route.Laws.{route_path}
use kuja.Client.Address.{address, address_of, pick_node, get_address_discovery}

-- The nodes that the catalog gives have no URL.
nodes_of-url :
    (x : Catalog) (name : Str) (l : List CatalogService) → All (λ n. n.url ≡ []) (nodes_of x name l)
unfolding nodes_of
nodes_of-url x name [] = tt
nodes_of-url x name (s ∷ l) = elim (Bool-cases (str_eq s.service_name name)) [
  | inl same ↦ rw same (refl, nodes_of-url x name l)
  | inr other ↦ rw other (nodes_of-url x name l)
]

no_url_address :
    (ns : List Node) (random : ℕ) (service method : Str)
    → All (λ n. n.url ≡ []) ns
    → ns ≢ []
    → address_of service method (pick_node random ns) ≡ address (route_path service method)
no_url_address [] random service method all ne = absurd (ne refl)
no_url_address (n ∷ ns) random service method all ne =
    let (node, url, e) =
      get_elem?-All (λ n. n.url ≡ []) (n ∷ ns) (random % length (n ∷ ns)) all
        (mod-lt random (omega arith)) in
    ap (address_of service method) e ∙ ap (λ u. address (u ++ route_path service method)) url

-- For a service that the cache does not have and for which the catalog has nodes, the address of a
-- method is the bare path: it names no host.
pub get_service-no_host :
    (x : Catalog) (name method : Str) (random : ℕ) (c : Cache) (rsp : List CatalogService)
    → c.writer ≡ false
    → lookup name c.services ≡ none
    → x.service name ≡ reply rsp
    → nodes_of x name rsp ≢ []
    → (a : Asked NodeList) × (get_service x name c ≡ done a c)
      × (get_address_discovery a random name method ≡ address (route_path name method))
unfolding get_address_discovery
get_service-no_host x name method random c rsp free missing asked some_nodes =
    let from : known_or_asked x name (lookup name c.services) ≡ from_catalog x name (reply rsp) =
      ap (known_or_asked x name) missing ∙ ap (from_catalog x name) asked in
    (
      known_or_asked x name (lookup name c.services),
      get_service-readable x name c free,
      ap (λ a. get_address_discovery a random name method) from
          ∙ no_url_address (nodes_of x name rsp) random name method (nodes_of-url x name rsp)
              some_nodes,
    )
