-- ===== src/Server/Lifecycle/Tests.antt =====
-- Runs of a server with two services and one subscription.
use kuja.Prelude.{
  pos, ◌≡◌, refl, true, Option, none, some, [], ◌∷◌, ◌++◌, map, Str, codes, str_eq, if◌then◌else◌,
}
use kuja.Registry.{Node}
use kuja.Server.Lifecycle.{Hosted, Hosting, registers, host_port, node_of, run_on}
use kuja.Server.Lifecycle.Laws.{hosted_nodes, whole_run, run_on-whole_run, run_on-refused}

abbrev hosted : Str → Hosted
hosted name = record { id = name; name = name; node = none }

abbrev two_services : Hosting
two_services = record {
  id = codes "s";
  has_registry = true;
  has_broker = true;
  services = hosted (codes "Add") ∷ hosted (codes "Sub") ∷ [];
  subscriptions = record { topic = codes "t"; queue = codes "q"; size = pos 1 } ∷ [];
}

ports : host_port (codes "[::1]:80") ≡ (codes "[::1]", codes "80")
unfolding host_port
ports = refl

run_on-whole_run_example :
    run_on (λ n. none) none two_services (codes "http://") (codes "a:80")
    ≡ whole_run (λ n. none) none (codes "http://") (codes "a:80") two_services
run_on-whole_run_example =
    run_on-whole_run (λ n. none) none (codes "http://") (codes "a:80") two_services
      (refl, (refl, tt)) refl

abbrev refuses_sub : Node → Option Str
refuses_sub n = if str_eq n.name (codes "Sub") then some (codes "full") else none

run_on-refused_example :
    run_on refuses_sub none two_services (codes "http://") (codes "a:80")
    ≡ map registers (hosted_nodes (codes "http://") (codes "a:80") (hosted (codes "Add") ∷ []))
      ++ (registers (node_of (codes "http://") (codes "a:80") (hosted (codes "Sub"))) ∷ [])
unfolding str_eq
run_on-refused_example =
    run_on-refused refuses_sub none (codes "http://") (codes "a:80") two_services
      (hosted (codes "Add") ∷ []) [] (hosted (codes "Sub")) (codes "full") refl refl (refl, tt) refl
