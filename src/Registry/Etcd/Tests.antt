-- ===== src/Registry/Etcd/Tests.antt =====
-- Runs of the etcd registry's model.
use kuja.Prelude.{◌≡◌, refl, true, false, none, some, List, [], ◌∷◌, ◌++◌, Str, codes, has_prefix}
use kuja.Prelude.Dict.{insert}
use kuja.Registry.{NodeList}
use kuja.Registry.Mutex.{Cache, done}
use kuja.Registry.Etcd.{
  Etcd, EtcdNode, url_node, remove_first, etcd_services, listed, directory_services,
}
use kuja.Registry.Etcd.Watcher.{Change, on_change}
use kuja.Registry.Etcd.Lease.{Store}
use kuja.Registry.Etcd.Laws.{Harmless, on_change-Harmless}

abbrev slashes : List Str → Str
slashes [] = []
slashes (s ∷ rest) = s ++ (b'/' ∷ slashes rest)

abbrev add_dir : EtcdNode
add_dir = record { key = codes "/p/Add"; value = []; dir = true; values = codes "http://a" ∷ [] }

abbrev one_etcd : Etcd
one_etcd = record {
  get = λ path. record { error = none; nodes = some (add_dir ∷ []) };
  create = λ path url. none;
  delete = λ path. none;
  join = slashes;
  prefix = codes "/p";
}

abbrev no_services : Cache
no_services = record { services = []; readers = 0; writer = false }

abbrev add_service : NodeList
add_service = record { name = codes "Add"; nodes = url_node (codes "http://a") ∷ [] }

-- A service of the prefix's directory.
lists_add : etcd_services one_etcd no_services ≡ done (listed (add_service ∷ [])) no_services
unfolding etcd_services remove_first has_prefix directory_services
lists_add = refl

abbrev created : Change
created = record { action = codes "create"; dir = false; value = codes "http://b"; prev = none }

on_change-Harmless_example : Harmless no_services (on_change created no_services)
on_change-Harmless_example =
    on_change-Harmless created no_services (record { no_readers = refl; no_writer = refl })

abbrev no_keys : Store
no_keys = record { keys = []; refreshers = [] }

abbrev add_key : Store
add_key = record {
  keys = insert (codes "/p/Add/1") (codes "http://a") [];
  refreshers = (codes "/p/Add/1", codes "http://a") ∷ [];
}
