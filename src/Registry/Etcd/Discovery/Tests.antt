-- ===== src/Registry/Etcd/Discovery/Tests.antt =====
-- Two servers with the service Add.
use kuja.Prelude.{◌≡◌, refl, arith, false, none, some, List, [], ◌∷◌, ◌++◌, Str, codes}
use kuja.Prelude.Dict.{lookup}
use kuja.Registry.{NodeList, Asked}
use kuja.Registry.Mutex.{Cache, done}
use kuja.Registry.Etcd.{Etcd, EtcdNode, etcd_service}
use kuja.Registry.Etcd.Discovery.{etcd_service-get_service_method}
use kuja.Server.Lifecycle.{Hosted}
use kuja.Server.Route.{get_service_method}
use kuja.Client.Address.{address, get_address_discovery}
use mathlib.Core.List.{Mem, mem-cons_self, mem-cons_of_mem}

abbrev add_node : Str → EtcdNode
add_node addr = record { key = []; value = codes "http://" ++ addr; dir = false; values = [] }

abbrev two_nodes : List EtcdNode
two_nodes = add_node (codes "a:80") ∷ add_node (codes "b:80") ∷ []

abbrev two_addresses : List Str
two_addresses = codes "a:80" ∷ codes "b:80" ∷ []

abbrev etcd_with_nodes : Etcd
etcd_with_nodes = record {
  get = λ path. record { error = none; nodes = some two_nodes };
  create = λ path url. none;
  delete = λ path. none;
  join = λ parts. [];
  prefix = codes "/p";
}

abbrev add_hosted : Hosted
add_hosted = record { id = codes "1"; name = codes "Add"; node = none }

abbrev fresh : Cache
fresh = record { services = []; readers = 0; writer = false }

etcd_service-get_service_method_example :
    (found : Asked NodeList) × (addr : Str) × (path : Str) × Mem addr two_addresses
    × (etcd_service etcd_with_nodes (codes "Add") fresh ≡ done found fresh)
    × (get_address_discovery found 7 (codes "Add") (codes "Sum")
        ≡ address ((codes "http://" ++ addr) ++ path))
    × (get_service_method path ≡ (codes "Add", codes "Sum"))
unfolding lookup
etcd_service-get_service_method_example =
    etcd_service-get_service_method etcd_with_nodes (codes "http://") add_hosted two_addresses
      (codes "Su") b'm' 7 fresh two_nodes (omega arith, (omega arith, (omega arith, tt)))
      (omega arith) refl refl refl refl (λ e. cc)
      (
        (refl, (codes "a:80", mem-cons_self, refl)),
        ((refl, (codes "b:80", mem-cons_of_mem (codes "a:80") mem-cons_self, refl)), tt),
      )
