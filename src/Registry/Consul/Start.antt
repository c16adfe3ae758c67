-- ===== src/Registry/Consul/Start.antt =====
-- registry/consul/consul.go and registry/consul/watcher.go: `NewRegistry`, and the watch plan that
-- newConsulWatcher starts and `Stop` stops.
use kuja.Prelude.{
  ◌≡◌, refl, ℕ, zero, suc, Bool, true, false, if◌then◌else◌, Option, none, some, List, [], ◌∷◌,
  ◌++◌, map, Str, codes, has_prefix,
}

-- The Replacer, which drops each `http://` and `https://`, from left to right; the number counts the
-- bytes that are still to be dropped.
unfoldable pub drop_schemes : ℕ → Str → Str
drop_schemes n [] = []
drop_schemes (suc n) (c ∷ s) = drop_schemes n s
drop_schemes zero (c ∷ s) =
    let http = drop_schemes 6 s in
    let https = drop_schemes 7 s in
    let rest = drop_schemes 0 s in
    if has_prefix (c ∷ s) (codes "http://")
    then http
    else if has_prefix (c ∷ s) (codes "https://")
    then https
    else c ∷ rest

abbrev pub first_or : Str → List Str → Str
first_or default [] = default
first_or default (a ∷ rest) = a

-- `NewRegistry`: the address of the registry, and the slice of the caller, which is written over.
-- `default` is the address of consul's DefaultConfig.
unfoldable pub new_consul_registry : Str → List Str → Str × List Str
unfolding drop_schemes
new_consul_registry default addrs =
    let stripped = map (drop_schemes 0) addrs in (first_or default stripped, stripped)

-- What a watcher makes of its watch plan.
pub data PlanCall : Type 0 where
  runs : Str → PlanCall
  stops : PlanCall

-- A consulWatcher, by whether it has a plan.
pub record ConsulWatcher : Type 0 where
  pub has_plan : Bool

pub data StartedWatcher : Type 0 where
  refused : Str → StartedWatcher
  watching : ConsulWatcher → List PlanCall → StartedWatcher

-- `newConsulWatcher`; the argument is the error of watch.Parse, if any.
abbrev pub new_watcher : Str → Option Str → StartedWatcher
new_watcher addr none = watching (record { has_plan = true }) (runs addr ∷ [])
new_watcher addr (some e) = refused e

-- `Stop`
abbrev pub stop_if : Bool → List PlanCall
stop_if true = stops ∷ []
stop_if false = []

abbrev pub stop_watcher : ConsulWatcher → List PlanCall
stop_watcher w = stop_if w.has_plan

-- A scheme in front of an address does not matter, and all addresses but the first are not used.
new_consul_registry-http :
    (default addr : Str) (rest : List Str)
    → ((new_consul_registry default ((codes "http://" ++ addr) ∷ rest)).0 ≡ drop_schemes 0 addr)
      × ((new_consul_registry default ((codes "https://" ++ addr) ∷ rest)).0 ≡ drop_schemes 0 addr)
unfolding new_consul_registry drop_schemes has_prefix
new_consul_registry-http default addr rest = (refl, refl)
