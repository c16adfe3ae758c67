-- ===== src/Registry/Consul/Tests.antt =====
-- Runs of the consul registry's model, with a catalog of one service.
use kuja.Prelude.{
  pos, ◌≡◌, refl, true, false, ◌&&◌, not, ◌||◌, if◌then◌else◌, none, some, List, [], ◌∷◌, Str,
  codes, str_eq,
}
use kuja.Prelude.Dict.{lookup}
use kuja.Registry.{NodeList, Asked}
use kuja.Registry.Mutex.{Cache, done, waits, IsFree, ◌>>=◌}
use kuja.Registry.Consul.{Catalog, CatalogService, reply, nodes_of, get_service, list_services}
use kuja.Registry.Consul.Watcher.{ServiceEntry, has, service_handler, handle}
use kuja.Registry.Consul.Locks.{list_services-service_handler}
use kuja.Registry.Consul.Laws.{handle_lem}
use kuja.Registry.Consul.Address.{get_service-no_host}
use kuja.Client.Address.{address, get_address_discovery}
use kuja.Server.Route.Laws.{route_path}

abbrev one_service : CatalogService
one_service = record {
  service_name = codes "Add";
  service_id = codes "1";
  address = codes "10.0.0.1:80";
  service_port = pos 80;
}

abbrev one_catalog : Catalog
one_catalog = record {
  service = λ name. reply (one_service ∷ []);
  services = reply (codes "Add" ∷ []);
  register = λ r. none;
  deregister = λ s. none;
  itoa = λ n. codes "80";
  atoi = λ s. pos 80;
}

abbrev no_cache : Cache
no_cache = record { services = []; readers = 0; writer = false }

abbrev add_nodes : NodeList
add_nodes = record { name = codes "Add"; nodes = [] }

abbrev add_cached : Cache
add_cached = record { services = (codes "Add", add_nodes) ∷ []; readers = 0; writer = false }

abbrev one_entry : ServiceEntry
one_entry = record {
  service = codes "Add";
  service_id = codes "1";
  address = codes "a";
  port = pos 80;
}

list_services-service_handler_example :
    (list_services one_catalog >>= λ r. service_handler one_catalog (some (one_entry ∷ [])))
      add_cached
    ≡ waits
list_services-service_handler_example =
    list_services-service_handler one_catalog add_cached (codes "Add", add_nodes) []
      (one_entry ∷ []) refl refl

handle_lem_example :
    (ws stopped : List Str) × (c' : Cache) × (handle
        (λ s. true)
        (codes "Old" ∷ [])
        (codes "Add" ∷ [])
        add_cached
      ≡ done (ws, stopped) c')
    × IsFree c'
    × ((k : Str)
        → (lookup k c'.services
            ≡ (if has k (codes "Add" ∷ []) then lookup k add_cached.services else none))
          × (has k ws ≡ (has k (codes "Add" ∷ []) && (has k (codes "Old" ∷ []) || true)))
          × (has k stopped ≡ (not (has k (codes "Add" ∷ [])) && has k (codes "Old" ∷ []))))
handle_lem_example =
    handle_lem (λ s. true) (codes "Old" ∷ []) (codes "Add" ∷ []) add_cached
      (record { no_readers = refl; no_writer = refl })

get_service-no_host_example :
    (a : Asked NodeList) × (get_service one_catalog (codes "Add") no_cache ≡ done a no_cache)
    × (get_address_discovery a 3 (codes "Add") (codes "Sum")
        ≡ address (route_path (codes "Add") (codes "Sum")))
unfolding lookup nodes_of str_eq
get_service-no_host_example =
    get_service-no_host one_catalog (codes "Add") (codes "Sum") 3 no_cache (one_service ∷ []) refl
      refl refl (λ e. cc)
