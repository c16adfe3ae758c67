-- ===== src/Registry/Etcd/Watcher.antt =====
-- registry/etcd/watcher.go: what the goroutine of the watcher does with a response.
use kuja.Prelude.{
  Bool, true, false, if◌then◌else◌, Option, none, some, List, [], ◌∷◌, ◌++◌, Str, codes, str_eq,
}
use kuja.Prelude.Dict.{Dict, lookup, insert}
use kuja.Registry.{Node, NodeList}
use kuja.Registry.Mutex.{fatal, M, pure, ◌>>=◌, ◌>>◌, cached, store, lock, unlock}
use kuja.Registry.Etcd.{url_node}

-- An etcd.Response, less what is not read; `prev` is nil for a response without a previous node.
pub record Change : Type 0 where
  pub action : Str
  pub dir : Bool
  pub value : Str
  pub prev : Option Str

-- The loop that deletes a node by its identifier: behind a node that is deleted, one is not looked at.
unfoldable pub delete_nodes : Str → List Node → List Node
delete_nodes id [] = []
delete_nodes id (n ∷ []) = if str_eq id n.id then [] else n ∷ []
delete_nodes id (n ∷ k ∷ rest) =
    let skipped = delete_nodes id rest in
    let next = delete_nodes id (k ∷ rest) in if str_eq id n.id then k ∷ skipped else n ∷ next

-- The switch on the action, for a service that is there.
abbrev pub changed_nodes : Str → Node → List Node → List Node
changed_nodes action n nodes =
    if str_eq action (codes "delete")
    then delete_nodes n.id nodes
    else if str_eq action (codes "create")
    then nodes ++ (n ∷ [])
    else nodes

abbrev pub changed : Str → Node → Option NodeList → Dict NodeList → Dict NodeList
changed action n none d =
    if str_eq action (codes "create")
    then insert n.name (record { name = n.name; nodes = n ∷ [] }) d
    else d
changed action n (some s) d = insert n.name (record s { nodes = changed_nodes action n s.nodes }) d

-- The part that holds the lock. The service is a pointer, so its new nodes are stored under its key.
abbrev pub apply_change : Str → Node → M (Unit {0})
apply_change action n = do
  lock
  services ← cached
  store (changed action n (lookup n.name services) services)
  unlock

abbrev pub with_url : Str → Str → M (Unit {0})
with_url action [] = pure tt
with_url action (c ∷ url) = apply_change action (url_node (c ∷ url))

-- `resp.PrevNode.Value`; a nil previous node is a panic, `fatal` here.
abbrev pub with_prev : Str → Option Str → M (Unit {0})
with_prev action none = λ c. fatal
with_prev action (some url) = with_url action url

abbrev pub with_value : Change → Str → M (Unit {0})
with_value r [] = with_prev r.action r.prev
with_value r (c ∷ url) = with_url r.action (c ∷ url)

abbrev pub unless_dir : Bool → M (Unit {0}) → M (Unit {0})
unless_dir true m = pure tt
unless_dir false m = m

-- The body of the range over the channel.
unfoldable pub on_change : Change → M (Unit {0})
unfolding delete_nodes
on_change r = unless_dir r.dir (with_value r r.value)
